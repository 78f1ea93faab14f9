-- ===== src/Exec/Keeps.antt =====
-- What an action keeps, on every branch, errors included: rules by which a proof follows the code.
use cloud_box.Base.{Bool, true, false, Option, none, some, if◌then◌else◌, String}
use cloud_box.Fail.{Error, Result, ok, err}
use cloud_box.Exec.{
  World, Exec, next, pure, raise, lift, gets, call, query, attempt, on_error, write, continue,
  settle, ◌>>=◌,
}

-- `m` keeps the property `P` of the store.
pub record Keeps {S A : Type 0} (P : S → Type 0) (m : Exec S A) : Type 0 where
  pub at : (w : World S) → P w.store → P ((m w).1).store

module _ {S A : Type 0} (P : S → Type 0) where
  settle_keeps :
      (o : Option String) (f : S → Result A × S) (w : World S)
      → ((s : S) → P s → P (f s).1)
      → P w.store
      → P ((settle o f w).1).store
  settle_keeps none f w step h = step w.store h
  settle_keeps (some message) f w step h = h

module _ {S A : Type 0} {P : S → Type 0} where
  pub pure-Keeps : (a : A) → Keeps P (pure a)
  unfolding pure
  pure-Keeps a = record { at = λ w h. h }

  pub raise-Keeps : (e : Error) → Keeps P (raise {A = A} e)
  unfolding raise
  raise-Keeps e = record { at = λ w h. h }

  pub lift-Keeps : (r : Result A) → Keeps P (lift r)
  unfolding lift
  lift-Keeps r = record { at = λ w h. h }

  pub gets-Keeps : (f : S → A) → Keeps P (gets f)
  unfolding gets
  gets-Keeps f = record { at = λ w h. h }

  pub call-Keeps : (f : S → Result A × S) → ((s : S) → P s → P (f s).1) → Keeps P (call f)
  unfolding call
  call-Keeps f step = record { at = λ w h. settle_keeps P (next w.outcomes).0 f _ step h }

  pub query-Keeps : (f : S → Result A) → Keeps P (query f)
  unfolding query
  query-Keeps f = record {
    at = λ w h. settle_keeps P (next w.outcomes).0 (λ s. (f s, s)) _ (λ s k. k) h;
  }

  pub attempt-Keeps : (m : Exec S A) → Keeps P m → Keeps P (attempt m)
  unfolding attempt
  attempt-Keeps m k = record { at = λ w h. k.at w h }

  pub on_error-Keeps : (f : Error → Error) (m : Exec S A) → Keeps P m → Keeps P (on_error f m)
  unfolding on_error
  on_error-Keeps f m k = record { at = λ w h. k.at w h }

  pub if-Keeps : (b : Bool) (m n : Exec S A) → Keeps P m → Keeps P n → Keeps P (if b then m else n)
  if-Keeps true m n k l = k
  if-Keeps false m n k l = l

  -- A test that ends the function with an error.
  pub guard-Keeps :
      (b : Bool) (e : Error) (n : Exec S A) → Keeps P n → Keeps P (if b then raise e else n)
  guard-Keeps b e n k = if-Keeps b (raise e) n (raise-Keeps e) k

module _ {S A B : Type 0} {P : S → Type 0} where
  pub result-Keeps :
      (r : Result A) (m : A → Exec S B) (n : Error → Exec S B)
      → ((a : A) → Keeps P (m a))
      → ((e : Error) → Keeps P (n e))
      → Keeps P (elim r [ ok a ↦ m a | err e ↦ n e ])
  result-Keeps (ok a) m n k l = k a
  result-Keeps (err e) m n k l = l e

  pub option-Keeps :
      (r : Option A) (m : A → Exec S B) (n : Exec S B)
      → ((a : A) → Keeps P (m a))
      → Keeps P n
      → Keeps P (elim r [ none ↦ n | some a ↦ m a ])
  option-Keeps (some a) m n k l = k a
  option-Keeps none m n k l = l

module _ {S A B : Type 0} {P : S → Type 0} where
  continue_keeps :
      (r : Result A) (f : A → Exec S B) (w : World S)
      → ((a : A) → Keeps P (f a))
      → P w.store
      → P ((continue r f w).1).store
  continue_keeps (ok a) f w step h = (step a).at w h
  continue_keeps (err e) f w step h = h

  pub bind-Keeps :
      (m : Exec S A) (f : A → Exec S B) → Keeps P m → ((a : A) → Keeps P (f a)) → Keeps P (m >>= f)
  unfolding ◌>>=◌
  bind-Keeps m f k step = record { at = λ w h. continue_keeps (m w).0 f (m w).1 step (k.at w h) }

pub write-Keeps :
    {S : Type 0} {P : S → Type 0} (f : S → S) → ((s : S) → P s → P (f s)) → Keeps P (write f)
unfolding write
write-Keeps f step = call-Keeps (λ s. (ok tt, f s)) step

pub ruleset keeps_rules = (
  pure-Keeps, raise-Keeps, lift-Keeps, gets-Keeps, query-Keeps, attempt-Keeps, on_error-Keeps,
  if-Keeps, bind-Keeps,
)
