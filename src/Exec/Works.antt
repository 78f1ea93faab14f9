-- ===== src/Exec/Works.antt =====
-- Runs in which all calls work: what an action makes of a store, by its result. The rules follow the
-- code; a result is followed by `Q` at its value, an error by `E`.
use cloud_box.Base.{Bool, true, false, ◌≡◌, refl, if◌then◌else◌}
use cloud_box.Fail.{Error, Result, ok, err, rename_error}
use cloud_box.Exec.{
  World, Exec, works, pure, raise, lift, gets, call, query, attempt, continue, on_error, call-works,
  query-works, ◌>>=◌,
}

module _ {S A : Type 0} where
  abbrev pub Post : (A → S → Type 0) → (Error → S → Type 0) → Result A → S → Type 0
  Post Q E (ok a) s = Q a s
  Post Q E (err e) s = E e s

  -- `m` runs to its end with all calls to come working too.
  pub record Works (P : S → Type 0) (m : Exec S A) (Q : A → S → Type 0) (E : Error → S → Type 0)
      : Type 0 where
    pub at :
        (s : S)
        → P s
        → ((m (works s)).1 ≡ works (m (works s)).1.store)
          × Post Q E (m (works s)).0 (m (works s)).1.store

-- What holds whatever the result.
pub Post-same :
    {S A : Type 0} (P : S → Type 0) (r : Result A) (s : S)
    → P s
    → Post (λ _ t. P t) (λ _ t. P t) r s
Post-same P (ok a) s p = p
Post-same P (err e) s p = p

module _ {S A : Type 0} {P : S → Type 0} {Q : A → S → Type 0} {E : Error → S → Type 0} where
  pub pure-Works : (a : A) → ((s : S) → P s → Q a s) → Works P (pure a) Q E
  unfolding pure
  pure-Works a step = record { at = λ s p. (refl, step s p) }

  pub raise-Works : (e : Error) → ((s : S) → P s → E e s) → Works P (raise e) Q E
  unfolding raise
  raise-Works e step = record { at = λ s p. (refl, step s p) }

  pub lift-Works : (r : Result A) → ((s : S) → P s → Post Q E r s) → Works P (lift r) Q E
  unfolding lift
  lift-Works r step = record { at = λ s p. (refl, step s p) }

  pub gets-Works : (f : S → A) → ((s : S) → P s → Q (f s) s) → Works P (gets f) Q E
  unfolding gets
  gets-Works f step = record { at = λ s p. (refl, step s p) }

  pub call-Works :
      (f : S → Result A × S) → ((s : S) → P s → Post Q E (f s).0 (f s).1) → Works P (call f) Q E
  call-Works f step = record { at = λ s p. rw (call-works f s) (refl, step s p) }

  pub query-Works : (f : S → Result A) → ((s : S) → P s → Post Q E (f s) s) → Works P (query f) Q E
  query-Works f step = record { at = λ s p. rw (query-works f s) (refl, step s p) }

  pub if-Works :
      (b : Bool) (m n : Exec S A)
      → (b ≡ true → Works P m Q E)
      → (b ≡ false → Works P n Q E)
      → Works P (if b then m else n) Q E
  if-Works true m n k l = k refl
  if-Works false m n k l = l refl

  pub pre-Works :
      (R : S → Type 0) (m : Exec S A) → ((s : S) → R s → P s) → Works P m Q E → Works R m Q E
  pre-Works R m weaken k = record { at = λ s r. k.at s (weaken s r) }

  pub attempt-Works :
      (m : Exec S A) (E' : Error → S → Type 0)
      → Works P m Q E
      → Works P (attempt m) (λ r s. Post Q E r s) E'
  unfolding attempt
  attempt-Works m E' k = record { at = λ s p. k.at s p }

module _ {S A B : Type 0} {R : A → S → Type 0} {Q : B → S → Type 0} {E : Error → S → Type 0} where
  continue-works :
      (r : Result A) (f : A → Exec S B) (w : World S)
      → ((a : A) → Works (R a) (f a) Q E)
      → w ≡ works w.store
      → Post R E r w.store
      → ((continue r f w).1 ≡ works (continue r f w).1.store)
        × Post Q E (continue r f w).0 (continue r f w).1.store
  continue-works (ok a) f w step clean p = rw clean ((step a).at w.store p)
  continue-works (err e) f w step clean p = (clean, p)

module _ {S A B : Type 0} {P : S → Type 0} {R : A → S → Type 0} {Q : B → S → Type 0}
    {E : Error → S → Type 0} where
  pub bind-Works :
      (m : Exec S A) (f : A → Exec S B)
      → Works P m R E
      → ((a : A) → Works (R a) (f a) Q E)
      → Works P (m >>= f) Q E
  unfolding ◌>>=◌
  bind-Works m f k step = record {
    at = λ s p. continue-works (m (works s)).0 f (m (works s)).1 step (k.at s p).0 (k.at s p).1;
  }

-- A weaker result.
pub post-Works :
    {S A : Type 0} {P : S → Type 0} {Q Q' : A → S → Type 0} {E E' : Error → S → Type 0}
    (m : Exec S A)
    → ((a : A) (s : S) → Q a s → Q' a s)
    → ((e : Error) (s : S) → E e s → E' e s)
    → Works P m Q E
    → Works P m Q' E'
post-Works {S} {A} {Q = Q} {Q' = Q'} {E = E} {E' = E'} m weaken weaken_error k = record {
  at = λ s p. ((k.at s p).0, step (m (works s)).0 _ (k.at s p).1);
}
  where
    step : (r : Result A) (s : S) → Post Q E r s → Post Q' E' r s
    step (ok a) s q = weaken a s q
    step (err e) s q = weaken_error e s q

-- A renamed error.
pub on_error-Works :
    {S A : Type 0} {P : S → Type 0} {Q : A → S → Type 0} {E : Error → S → Type 0}
    (f : Error → Error) (m : Exec S A)
    → Works P m Q (λ e s. E (f e) s)
    → Works P (on_error f m) Q E
unfolding on_error
on_error-Works {S} {A} {Q = Q} {E = E} f m k = record {
  at = λ s p. ((k.at s p).0, renamed (m (works s)).0 _ (k.at s p).1);
}
  where
    renamed : (r : Result A) (s : S) → Post Q (λ e t. E (f e) t) r s → Post Q E (rename_error f r) s
    renamed (ok a) s q = q
    renamed (err e) s q = q
