-- ===== src/Sql/Laws.antt =====
-- Laws of the statements: what all rows have, what a search finds, how many rows a test meets.
use cloud_box.Base.{
  suc, ◌≤◌, ◌≡◌, refl, ap, Bool, true, false, none, some, List, [], ◌∷◌, inl, inr, arith, length,
  All, Bool-cases, if◌then◌else◌,
}
use cloud_box.Sql.{find_where, select_where, update_where, returning, delete_where, affected}
use mathlib.Core.Option

module _ {A : Type 0} (P : A → Type 0) (p : A → Bool) where
  pub All-update :
      (f : A → A) (rows : List A)
      → ((r : A) → p r ≡ true → P r → P (f r))
      → All P rows
      → All P (update_where p f rows)
  unfolding update_where
  All-update f [] step h = tt
  All-update f (r ∷ rows) step h = ground (arith, step r, All-update f rows step h.1)

  pub All-delete : (rows : List A) → All P rows → All P (delete_where p rows)
  unfolding delete_where
  All-delete [] h = tt
  All-delete (r ∷ rows) h = ground (arith, All-delete rows h.1)

  pub All-select : (rows : List A) → All P rows → All P (select_where p rows)
  unfolding select_where
  All-select [] h = tt
  All-select (r ∷ rows) h = ground (arith, All-select rows h.1)

  pub find_where-All : (rows : List A) (r : A) → All P rows → find_where p rows ≡ some r → P r
  unfolding find_where
  find_where-All [] r h e = cc
  find_where-All (q ∷ rows) r h e = elim (Bool-cases (p q)) [
    | inl t ↦ subst_some q r h.0 (ground arith)
    | inr t ↦ find_where-All rows r h.1 (ground arith)
  ]
    where
      subst_some : (q r : A) → P q → q ≡ r → P r
      subst_some q r h e = rw (← e) h

module _ {A : Type 0} (p : A → Bool) where
  pub find_where-holds : (rows : List A) (r : A) → find_where p rows ≡ some r → p r ≡ true
  unfolding find_where
  find_where-holds [] r e = cc
  find_where-holds (q ∷ rows) r e = ground (arith, find_where-holds rows r)

  pub find_where-none : (rows : List A) → find_where p rows ≡ none → All (λ r. p r ≡ false) rows
  unfolding find_where
  find_where-none [] e = tt
  find_where-none (q ∷ rows) e = ground (arith, find_where-none rows)

  pub length-update : (f : A → A) (rows : List A) → length (update_where p f rows) ≡ length rows
  unfolding update_where
  length-update f [] = refl
  length-update f (r ∷ rows) = ap suc (length-update f rows)

  -- An update that meets no row changes nothing.
  pub update_where-none :
      (f : A → A) (rows : List A) → find_where p rows ≡ none → update_where p f rows ≡ rows
  unfolding find_where update_where
  update_where-none f [] e = refl
  update_where-none f (r ∷ rows) e = ground (arith, update_where-none f rows)

  -- A statement reports a row exactly when a search with its test finds one.
  pub affected-zero : (rows : List A) → find_where p rows ≡ none → affected p rows ≡ 0
  unfolding find_where affected
  affected-zero [] e = refl
  affected-zero (r ∷ rows) e = ground (arith, affected-zero rows)

  pub affected-pos : (rows : List A) (r : A) → find_where p rows ≡ some r → 1 ≤ affected p rows
  unfolding find_where affected
  affected-pos [] r e = cc
  affected-pos (q ∷ rows) r e = ground (arith, affected-pos rows r)

  -- What a search by `k` finds after an update that leaves `k` alone.
  pub find_where-update :
      (k : A → Bool) (f : A → A) (rows : List A)
      → ((r : A) → k (f r) ≡ k r)
      → find_where k (update_where p f rows)
        ≡ Option.map (λ r. if p r then f r else r) (find_where k rows)
  unfolding find_where update_where
  find_where-update k f [] same = refl
  find_where-update k f (r ∷ rows) same = ground (arith, same r, find_where-update k f rows same)

  -- RETURNING gives the row that a search finds, as the update leaves it.
  pub returning-find_where :
      (f : A → A) (rows : List A) → returning p f rows ≡ Option.map f (find_where p rows)
  unfolding find_where returning
  returning-find_where f [] = refl
  returning-find_where f (r ∷ rows) = ground (arith, returning-find_where f rows)

  -- A narrower search finds nothing where this one finds nothing.
  pub find_where-narrow :
      (n : A → Bool) (rows : List A)
      → find_where p rows ≡ none
      → ((r : A) → n r ≡ true → p r ≡ true)
      → find_where n rows ≡ none
  unfolding find_where
  find_where-narrow n [] e narrow = refl
  find_where-narrow n (r ∷ rows) e narrow =
      ground (arith, narrow r, find_where-narrow n rows (ground arith) narrow)

  -- No row that a deletion meets is left; a search for other rows finds what it found.
  pub find_where-deleted : (rows : List A) → find_where p (delete_where p rows) ≡ none
  unfolding find_where delete_where
  find_where-deleted [] = refl
  find_where-deleted (r ∷ rows) = ground (arith, find_where-deleted rows)

  pub find_where-delete_other :
      (n : A → Bool) (rows : List A)
      → ((r : A) → n r ≡ true → p r ≡ false)
      → find_where n (delete_where p rows) ≡ find_where n rows
  unfolding find_where delete_where
  find_where-delete_other n [] apart = refl
  find_where-delete_other n (r ∷ rows) apart =
      ground (arith, apart r, find_where-delete_other n rows apart)
