-- ===== src/Sql/Counts.antt =====
-- How many rows a test meets after a statement.
use cloud_box.Base.{
  ℕ, ◌+◌, ◌≡◌, refl, ap, Bool, true, false, none, some, List, [], ◌∷◌, ◌++◌, ◌↔◌, inl, inr, arith,
  Bool-cases,
}
use cloud_box.Sql.{find_where, update_where, delete_where, affected}
use cloud_box.Sql.Laws.{find_where-narrow}
use cloud_box.Sql.Keys.{keyed, Unique}

abbrev pub to_ℕ : Bool → ℕ
to_ℕ true = 1
to_ℕ false = 0

module _ {A : Type 0} (p : A → Bool) where
  pub affected-insert :
      (rows : List A) (r : A) → affected p (rows ++ r ∷ []) ≡ affected p rows + to_ℕ (p r)
  unfolding affected
  affected-insert [] r = ground arith
  affected-insert (q ∷ rows) r = ground (arith, affected-insert rows r)

  pub affected-update :
      (q : A → Bool) (f : A → A) (rows : List A)
      → ((r : A) → p (f r) ≡ p r)
      → affected p (update_where q f rows) ≡ affected p rows
  unfolding affected update_where
  affected-update q f [] kept = refl
  affected-update q f (r ∷ rows) kept = ground (arith, kept r, affected-update q f rows kept)

  pub affected-delete_none :
      (q : A → Bool) (rows : List A)
      → find_where q rows ≡ none
      → affected p (delete_where q rows) ≡ affected p rows
  unfolding affected delete_where find_where
  affected-delete_none q [] e = refl
  affected-delete_none q (r ∷ rows) e = ground (arith, affected-delete_none q rows)

module _ {K A : Type 0} (same : K → K → Bool) (same_iff : (a b : K) → (same a b ≡ true) ↔ (a ≡ b))
    (key : A → K) where
  -- A deletion of at most one row.
  pub affected-delete :
      (p q : A → Bool) (rows : List A) (r : A)
      → Unique same same_iff key rows
      → ((x y : A) → q x ≡ true → q y ≡ true → key x ≡ key y)
      → find_where q rows ≡ some r
      → affected p (delete_where q rows) + to_ℕ (p r) ≡ affected p rows
  unfolding affected delete_where find_where
  affected-delete p q [] r u one e = cc
  affected-delete p q (x ∷ rows) r u one e = elim (Bool-cases (q x)) [
    | inl t ↦
        let alone : find_where q rows ≡ none =
          find_where-narrow (keyed same same_iff key (key x)) q rows u.0
            (λ y h. (same_iff (key y) (key x)).1 (one y x h t)) in
        head t (affected-delete_none p q rows alone)
    | inr f ↦ ground (arith, affected-delete p q rows r u.1 one (ground arith))
  ]
    where
      head :
          q x ≡ true
          → affected p (delete_where q rows) ≡ affected p rows
          → affected p (delete_where q (x ∷ rows)) + to_ℕ (p r) ≡ affected p (x ∷ rows)
      head t same_rest =
          let same_row : x ≡ r = ground arith in
          let same_test : p x ≡ p r = ap p same_row in ground arith
