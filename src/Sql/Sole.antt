-- ===== src/Sql/Sole.antt =====
-- Statements of internal/*/repository.go on a table that has at most one row with a key.
use cloud_box.Base.{
  ◌≡◌, refl, Bool, true, ◌&&◌, none, some, arith, if◌then◌else◌, List, [], ◌∷◌, ◌++◌,
}
use cloud_box.Sql.{find_where, update_where, returning, select_where}

module _ {A : Type 0} (k q : A → Bool) where
  pub find_where-select_none : (rows : List A) → select_where k rows ≡ [] → find_where k rows ≡ none
  unfolding select_where find_where
  find_where-select_none [] e = refl
  find_where-select_none (r ∷ rows) e = ground (arith, find_where-select_none rows)

  pub find_where-select :
      (rows : List A) (c : A) → select_where k rows ≡ c ∷ [] → find_where k rows ≡ some c
  unfolding select_where find_where
  find_where-select [] c e = cc
  find_where-select (r ∷ rows) c e = ground (arith, find_where-select rows c)

  pub select_where-insert :
      (rows : List A) (r : A)
      → select_where k rows ≡ []
      → k r ≡ true
      → select_where k (rows ++ r ∷ []) ≡ r ∷ []
  unfolding select_where
  select_where-insert [] r e t = ground (arith, t)
  select_where-insert (a ∷ rows) r e t = ground (arith, select_where-insert rows r)

  returning-select_none :
      (f : A → A) (rows : List A)
      → select_where k rows ≡ []
      → returning (λ r. k r && q r) f rows ≡ none
  unfolding select_where returning
  returning-select_none f [] e = refl
  returning-select_none f (r ∷ rows) e = ground (arith, returning-select_none f rows)

  pub returning-select :
      (f : A → A) (rows : List A) (c : A)
      → select_where k rows ≡ c ∷ []
      → returning (λ r. k r && q r) f rows ≡ (if q c then some (f c) else none)
  unfolding select_where returning
  returning-select f [] c e = cc
  returning-select f (r ∷ rows) c e =
      ground (arith, returning-select f rows c, returning-select_none f rows)

  select_where-update_none :
      (f : A → A) (rows : List A)
      → ((r : A) → k (f r) ≡ k r)
      → select_where k rows ≡ []
      → select_where k (update_where (λ r. k r && q r) f rows) ≡ []
  unfolding select_where update_where
  select_where-update_none f [] same e = refl
  select_where-update_none f (r ∷ rows) same e =
      ground (arith, same r, select_where-update_none f rows same)

  pub select_where-update :
      (f : A → A) (rows : List A) (c : A)
      → ((r : A) → k (f r) ≡ k r)
      → select_where k rows ≡ c ∷ []
      → select_where k (update_where (λ r. k r && q r) f rows) ≡ (if q c then f c else c) ∷ []
  unfolding select_where update_where
  select_where-update f [] c same e = cc
  select_where-update f (r ∷ rows) c same e =
      ground
        (arith, same r, select_where-update f rows c same, select_where-update_none f rows same)
