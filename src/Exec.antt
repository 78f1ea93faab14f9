-- ===== src/Exec.antt =====
-- Code that mutates a store and calls what may fail. A `World` is a store with the outcomes of the
-- calls to come: each call of the database or of a disk takes the next one, `some message` if the
-- call fails (it then has no effect), `none` if it works; after the last all calls work. What was
-- written before an error stays written, so the world comes back beside the error too.
pub mod Keeps
pub mod Works
pub mod Ensures
use cloud_box.Base.{String, Option, none, some, List, [], ◌∷◌, ◌≡◌, refl}
use cloud_box.Fail.{Error, Result, ok, err, external, rename_error}

pub record World {ℓ} (S : Type ℓ) : Type ℓ where
  pub outcomes : List (Option String)
  pub store : S

abbrev pub Exec {ℓ} : Type ℓ → Type ℓ → Type ℓ
Exec S A = World S → Result A × World S

-- The outcome of the next call, and those that follow.
unfoldable pub next : List (Option String) → Option String × List (Option String)
next [] = (none, [])
next (o ∷ rest) = (o, rest)

module _ {ℓ} {S A : Type ℓ} where
  unfoldable pub pure : A → Exec S A
  pure a w = (ok a, w)

  unfoldable pub raise : Error → Exec S A
  raise e w = (err e, w)

  unfoldable pub lift : Result A → Exec S A
  lift r w = (r, w)

  -- A read of the store that cannot fail, such as of a variable or a clock.
  unfoldable pub gets : (S → A) → Exec S A
  gets f w = (ok (f w.store), w)

  abbrev pub settle : Option String → (S → Result A × S) → World S → Result A × World S
  settle (some message) f w = (err (external message), w)
  settle none f w = let (r, s) = f w.store in (r, record w { store = s })

  -- A call of the database or of a disk that takes effect on the store and has a result.
  unfoldable pub call : (S → Result A × S) → Exec S A
  call f w =
      let (o, rest) = next w.outcomes in settle o f (record { outcomes = rest; store = w.store })

  -- A call that only reads.
  unfoldable pub query : (S → Result A) → Exec S A
  unfolding call
  query f = call (λ s. (f s, s))

  -- The result as a value, for code that looks at an error and goes on.
  unfoldable pub attempt : Exec S A → Exec S (Result A)
  attempt m w = let (r, w') = m w in (ok r, w')

  unfoldable pub on_error : (Error → Error) → Exec S A → Exec S A
  on_error f m w = let (r, w') = m w in (rename_error f r, w')

  abbrev pub after : Result A × World S → S
  after p = (p.1).store

module _ {ℓ} {S A B : Type ℓ} where
  abbrev pub continue : Result A → (A → Exec S B) → Exec S B
  continue (ok a) f w = f a w
  continue (err e) f w = (err e, w)

  infixl 10 ◌>>=◌ ◌>>◌
  -- Opening this opens `pure`, `raise`, `lift`, `gets`, `attempt` and `on_error` too.
  unfoldable pub ◌>>=◌ : Exec S A → (A → Exec S B) → Exec S B
  unfolding pure raise lift gets attempt on_error
  ◌>>=◌ m f w = let (r, w') = m w in continue r f w'

  abbrev pub ◌>>◌ : Exec S A → Exec S B → Exec S B
  m >> n = m >>= λ _. n

-- A call that writes and has no result but its error.
unfoldable pub write : {S : Type 0} → (S → S) → Exec S (Unit {0})
unfolding call
write f = call (λ s. (ok tt, f s))

-- What a transaction leaves: the store as it was if it ends with an error.
abbrev pub rolled_back {ℓ} : {S A : Type ℓ} → S → Result A × World S → Result A × World S
rolled_back s (ok a, w) = (ok a, w)
rolled_back s (err e, w) = (err e, record w { store = s })

-- BEGIN, statements, and COMMIT, which may fail; any error rolls back.
unfoldable pub transaction : {S A : Type 0} → Exec S A → Exec S A
unfolding query ◌>>=◌
transaction m w = rolled_back w.store ((do query (λ s. ok tt); a ← m; query (λ s. ok a)) w)

-- A world in which all calls work.
abbrev pub works : {S : Type 0} → S → World S
works s = record { outcomes = []; store = s }

module _ {S A : Type 0} (f : S → Result A × S) (s : S) where
  pub call-works : call f (works s) ≡ ((f s).0, works (f s).1)
  unfolding call next
  call-works = refl

module _ {S A : Type 0} (f : S → Result A) (s : S) where
  pub query-works : query f (works s) ≡ (f s, works s)
  unfolding query next
  query-works = refl
