-- ===== src/Exec/Ensures.antt =====
-- What an action makes of a store whatever fails: its result is followed by `Q`, its error by `E`.
-- `Anything` is the error of a body that a transaction rolls back.
use cloud_box.Base.{Bool, true, false, Option, none, some, String, ◌≡◌, refl, if◌then◌else◌}
use cloud_box.Fail.{Error, Result, ok, err, external}
use cloud_box.Exec.{
  World, Exec, next, pure, raise, call, query, attempt, transaction, continue, settle, rolled_back,
  ◌>>=◌, ◌>>◌,
}
use cloud_box.Exec.Keeps.{Keeps}
use cloud_box.Exec.Works.{Post}

pub record Ensures {S A : Type 0} (P : S → Type 0) (m : Exec S A) (Q : A → S → Type 0)
    (E : Error → S → Type 0) : Type 0 where
  pub at : (w : World S) → P w.store → Post Q E (m w).0 (m w).1.store

abbrev pub Anything : {S : Type 0} → Error → S → Type 0
Anything e s = Unit {0}

module _ {S A : Type 0} {P : S → Type 0} {Q : A → S → Type 0} {E : Error → S → Type 0} where
  pub pure-Ensures : (a : A) → ((s : S) → P s → Q a s) → Ensures P (pure a) Q E
  unfolding pure
  pure-Ensures a step = record { at = λ w p. step w.store p }

  pub raise-Ensures : (e : Error) → ((s : S) → P s → E e s) → Ensures P (raise e) Q E
  unfolding raise
  raise-Ensures e step = record { at = λ w p. step w.store p }

  pub call-Ensures :
      (f : S → Result A × S)
      → ((s : S) → P s → Post Q E (f s).0 (f s).1)
      → ((message : String) (s : S) → P s → E (external message) s)
      → Ensures P (call f) Q E
  unfolding call
  call-Ensures f step fails = record { at = λ w p. outcome (next w.outcomes).0 _ p }
    where
      outcome :
          (o : Option String) (w : World S)
          → P w.store
          → Post Q E (settle o f w).0 (settle o f w).1.store
      outcome none w p = step w.store p
      outcome (some message) w p = fails message w.store p

  pub query-Ensures :
      (f : S → Result A)
      → ((s : S) → P s → Post Q E (f s) s)
      → ((message : String) (s : S) → P s → E (external message) s)
      → Ensures P (query f) Q E
  unfolding query
  query-Ensures f step fails = call-Ensures (λ s. (f s, s)) step fails

  pub if-Ensures :
      (b : Bool) (m n : Exec S A)
      → (b ≡ true → Ensures P m Q E)
      → (b ≡ false → Ensures P n Q E)
      → Ensures P (if b then m else n) Q E
  if-Ensures true m n k l = k refl
  if-Ensures false m n k l = l refl

  pub pre-Ensures :
      (R : S → Type 0) (m : Exec S A) → ((s : S) → R s → P s) → Ensures P m Q E → Ensures R m Q E
  pre-Ensures R m weaken k = record { at = λ w r. k.at w (weaken w.store r) }

-- The result as a value.
pub attempt-Ensures :
    {S A : Type 0} {P : S → Type 0} {Q : A → S → Type 0} {E E' : Error → S → Type 0} (m : Exec S A)
    → Ensures P m Q E
    → Ensures P (attempt m) (λ r s. Post Q E r s) E'
unfolding attempt
attempt-Ensures m k = record { at = λ w p. k.at w p }

module _ {S A B : Type 0} {P : S → Type 0} {R : A → S → Type 0} {Q : B → S → Type 0}
    {E : Error → S → Type 0} where
  pub bind-Ensures :
      (m : Exec S A) (f : A → Exec S B)
      → Ensures P m R E
      → ((a : A) → Ensures (R a) (f a) Q E)
      → Ensures P (m >>= f) Q E
  unfolding ◌>>=◌
  bind-Ensures m f k step = record { at = λ w p. go (m w).0 (m w).1 (k.at w p) }
    where
      go :
          (r : Result A) (w : World S)
          → Post R E r w.store
          → Post Q E (continue r f w).0 (continue r f w).1.store
      go (ok a) w p = (step a).at w p
      go (err e) w p = p

-- A weaker result.
pub post-Ensures :
    {S A : Type 0} {P : S → Type 0} {Q Q' : A → S → Type 0} {E E' : Error → S → Type 0}
    (m : Exec S A)
    → ((a : A) (s : S) → Q a s → Q' a s)
    → ((e : Error) (s : S) → E e s → E' e s)
    → Ensures P m Q E
    → Ensures P m Q' E'
post-Ensures {S} {A} {Q = Q} {Q' = Q'} {E = E} {E' = E'} m weaken weaken_error k = record {
  at = λ w p. step (m w).0 _ (k.at w p);
}
  where
    step : (r : Result A) (s : S) → Post Q E r s → Post Q' E' r s
    step (ok a) s q = weaken a s q
    step (err e) s q = weaken_error e s q

module _ {S A : Type 0} {P : S → Type 0} where
  -- A fact that depends on no store.
  pub keeps-Ensures : (m : Exec S A) → Keeps P m → Ensures P m (λ a s. P s) (λ e s. P s)
  keeps-Ensures m k = record { at = λ w p. same (m w).0 (k.at w p) }
    where
      same : (r : Result A) → {s : S} → P s → Post (λ a t. P t) (λ e t. P t) r s
      same (ok a) p = p
      same (err e) p = p

  pub ensures-Keeps : (m : Exec S A) → Ensures P m (λ a s. P s) (λ e s. P s) → Keeps P m
  ensures-Keeps m k = record { at = λ w p. same (m w).0 (k.at w p) }
    where
      same : (r : Result A) → {s : S} → Post (λ a t. P t) (λ e t. P t) r s → P s
      same (ok a) p = p
      same (err e) p = p

-- What an action keeps, with any error.
pub kept-Ensures :
    {S A : Type 0} {P : S → Type 0} (m : Exec S A) → Keeps P m → Ensures P m (λ a s. P s) Anything
kept-Ensures m k = post-Ensures m (λ a s p. p) (λ e s p. tt) (keeps-Ensures m k)

module _ {S A : Type 0} {P : S → Type 0} {Q : A → S → Type 0} where
  -- A transaction that ends with an error leaves the store as it was.
  pub transaction-Ensures :
      (m : Exec S A) → Ensures P m Q Anything → Ensures P (transaction m) Q (λ e s. P s)
  unfolding transaction
  transaction-Ensures m k = record { at = λ w p. ends w.store p (body w) (k'.at w p) }
    where
      commit : (a : A) → Ensures (Q a) (query (λ s. ok a)) Q Anything
      commit a = query-Ensures (λ s. ok a) (λ s q. q) (λ _ _ _. tt)

      body : Exec S A
      body = do query (λ s. ok tt); a ← m; query (λ s. ok a)

      k' : Ensures P body Q Anything
      k' =
          bind-Ensures (query (λ s. ok tt)) (λ _. do a ← m; query (λ s. ok a))
            (query-Ensures (λ s. ok tt) (λ s p. p) (λ _ _ _. tt))
            (λ _. bind-Ensures m (λ a. query (λ s. ok a)) k commit)

      ends :
          (s : S) (p : P s) (q : Result A × World S)
          → Post Q Anything q.0 q.1.store
          → Post Q (λ e t. P t) (rolled_back s q).0 (rolled_back s q).1.store
      ends s p (ok a, w) h = h
      ends s p (err e, w) h = p

pub transaction-Keeps :
    {S A : Type 0} {P : S → Type 0} (m : Exec S A)
    → Ensures P m (λ a s. P s) Anything
    → Keeps P (transaction m)
transaction-Keeps m k = ensures-Keeps (transaction m) (transaction-Ensures m k)
