-- ===== src/Sql/Keys.antt =====
-- A table with a primary key: which row a key finds, and that statements keep keys unique. `same`
-- is the test on keys.
use cloud_box.Base.{
  ◌≡◌, refl, Bool, true, false, none, some, List, [], ◌∷◌, ◌++◌, ◌↔◌, inl, inr, arith, Bool-cases,
  is_some, Has, sym, ◌∙◌, ap, suc, Option-cases, if◌then◌else◌,
}
use cloud_box.Sql.{find_where, update_where, delete_where, affected}
use cloud_box.Sql.Laws.{find_where-holds, find_where-none, find_where-All}

module _ {K A : Type 0} (same : K → K → Bool) (same_iff : (a b : K) → (same a b ≡ true) ↔ (a ≡ b))
    (key : A → K) where
  abbrev pub keyed : K → A → Bool
  keyed k r = same (key r) k

  abbrev pub Unique : List A → Type 0
  Unique [] = Unit {0}
  Unique (r ∷ rows) = (find_where (keyed (key r)) rows ≡ none) × Unique rows

  -- The row that any search finds is the row of its key.
  pub find_where-Unique :
      (p : A → Bool) (rows : List A) (r : A)
      → Unique rows
      → find_where p rows ≡ some r
      → find_where (keyed (key r)) rows ≡ some r
  unfolding find_where
  find_where-Unique p [] r u e = cc
  find_where-Unique p (q ∷ rows) r u e = elim (Bool-cases (p q)) [
    | inl t ↦ ground (arith, same_iff (key q) (key q))
    | inr f ↦
        let ih : find_where (keyed (key r)) rows ≡ some r =
          find_where-Unique p rows r u.1 (ground arith) in
        elim (Bool-cases (same (key q) (key r))) [
          | inl hit ↦ absurd (apart q rows r ((same_iff _ _).0 hit) u.0 ih)
          | inr miss ↦ rw miss ih
        ]
  ]
    where
      apart :
          (q : A) (rows : List A) (r : A)
          → key q ≡ key r
          → find_where (keyed (key q)) rows ≡ none
          → find_where (keyed (key r)) rows ≡ some r
          → ⊥
      apart q rows r same_key missing found = cc (rw same_key at missing, found)

  -- An update that leaves keys alone keeps them unique.
  pub find_where-update_none :
      (k : K) (p : A → Bool) (f : A → A) (rows : List A)
      → ((r : A) → key (f r) ≡ key r)
      → find_where (keyed k) rows ≡ none
      → find_where (keyed k) (update_where p f rows) ≡ none
  unfolding find_where update_where
  find_where-update_none k p f [] kept e = refl
  find_where-update_none k p f (r ∷ rows) kept e =
      ground (arith, kept r, find_where-update_none k p f rows kept)

  pub update-Unique :
      (p : A → Bool) (f : A → A) (rows : List A)
      → ((r : A) → key (f r) ≡ key r)
      → Unique rows
      → Unique (update_where p f rows)
  unfolding update_where
  update-Unique p f [] kept u = tt
  update-Unique p f (r ∷ rows) kept u = elim (Bool-cases (p r)) [
    | inl t ↦ rw t (
      rw (kept r) (find_where-update_none (key r) p f rows kept u.0),
      update-Unique p f rows kept u.1,
    )
    | inr t ↦
        rw t (find_where-update_none (key r) p f rows kept u.0, update-Unique p f rows kept u.1)
  ]

  pub find_where-insert :
      (k : A → Bool) (rows : List A) (r : A)
      → find_where k (rows ++ r ∷ [])
        ≡ (if is_some (find_where k rows) then find_where k rows else if k r then some r else none)
  unfolding find_where
  find_where-insert k [] r = refl
  find_where-insert k (q ∷ rows) r = ground (arith, find_where-insert k rows r)

  -- So does an insert of a new key.
  pub insert-Unique :
      (rows : List A) (r : A)
      → find_where (keyed (key r)) rows ≡ none
      → Unique rows
      → Unique (rows ++ r ∷ [])
  unfolding find_where
  insert-Unique [] r e u = (refl, tt)
  insert-Unique (q ∷ rows) r e u = (
    ground (
      arith,
      find_where-insert (keyed (key q)) rows r,
      u.0,
      same_iff (key r) (key q),
      same_iff (key q) (key r),
    ),
    insert-Unique rows r (ground arith) u.1,
  )

  pub find_where-delete_none :
      (k p : A → Bool) (rows : List A)
      → find_where k rows ≡ none
      → find_where k (delete_where p rows) ≡ none
  unfolding find_where delete_where
  find_where-delete_none k p [] e = refl
  find_where-delete_none k p (r ∷ rows) e = ground (arith, find_where-delete_none k p rows)

  pub delete-Unique : (p : A → Bool) (rows : List A) → Unique rows → Unique (delete_where p rows)
  unfolding delete_where
  delete-Unique p [] u = tt
  delete-Unique p (r ∷ rows) u = elim (Bool-cases (p r)) [
    | inl t ↦ rw t (delete-Unique p rows u.1)
    | inr t ↦ rw t (find_where-delete_none (keyed (key r)) p rows u.0, delete-Unique p rows u.1)
  ]

  -- A row of the table is the row of its key.
  pub Has-find_where :
      (rows : List A) (r : A) → Unique rows → Has r rows → find_where (keyed (key r)) rows ≡ some r
  unfolding find_where
  Has-find_where [] r u m = absurd m
  Has-find_where (q ∷ rows) r u (inl e) = rw e (ground (arith, same_iff (key q) (key q)))
  Has-find_where (q ∷ rows) r u (inr m) = elim (Bool-cases (same (key q) (key r))) [
    | inl hit ↦
        let found : find_where (keyed (key r)) rows ≡ some r = Has-find_where rows r u.1 m in
        let missing : find_where (keyed (key q)) rows ≡ none = u.0 in
        cc (rw ((same_iff _ _).0 hit) at missing, found)
    | inr miss ↦ rw miss (Has-find_where rows r u.1 m)
  ]

  -- A search for a key and more finds the row of the key if that row meets the rest.
  pub find_where-keyed :
      (p : A → Bool) (rows : List A) (r : A)
      → Unique rows
      → find_where (keyed (key r)) rows ≡ some r
      → ((q : A) → p q ≡ true → key q ≡ key r)
      → p r ≡ true
      → find_where p rows ≡ some r
  find_where-keyed p rows r u found narrow t = elim (Option-cases (find_where p rows)) [
    | inl e ↦
        let f : p r ≡ false =
          find_where-All (λ q. p q ≡ false) (keyed (key r)) rows r (find_where-none p rows e)
            found in
        cc (t, f)
    | inr (q, e) ↦
        let same_key : key q ≡ key r = narrow q (find_where-holds p rows q e) in
        let other : find_where (keyed (key q)) rows ≡ some q = find_where-Unique p rows q u e in
        let equal : some q ≡ some r = sym (rw same_key at other) ∙ found in e ∙ equal
  ]

  affected-absent :
      (p : A → Bool) (rows : List A) (k : K)
      → find_where (keyed k) rows ≡ none
      → ((q : A) → p q ≡ true → key q ≡ k)
      → affected p rows ≡ 0
  unfolding find_where affected
  affected-absent p [] k e narrow = refl
  affected-absent p (q ∷ rows) k e narrow = elim (Bool-cases (p q)) [
    | inl t ↦ absurd (hit (narrow q t) ((same_iff (key q) (key q)).1 refl))
    | inr t ↦ rw t (affected-absent p rows k (ground arith) narrow)
  ]
    where
      hit : key q ≡ k → same (key q) (key q) ≡ true → ⊥
      hit i t = ground (arith, ap (same (key q)) i)

  -- A statement for one key changes exactly one row, if the row of the key meets its test.
  pub affected-keyed :
      (p : A → Bool) (rows : List A) (r : A)
      → Unique rows
      → ((q : A) → p q ≡ true → key q ≡ key r)
      → find_where p rows ≡ some r
      → affected p rows ≡ 1
  unfolding find_where affected
  affected-keyed p [] r u narrow e = cc
  affected-keyed p (q ∷ rows) r u narrow e = elim (Bool-cases (p q)) [
    | inl t ↦
        rw t (ap suc (affected-absent p rows (key q) u.0 (λ x h. narrow x h ∙ sym (narrow q t))))
    | inr t ↦ rw t (affected-keyed p rows r u.1 narrow (rw t at e))
  ]
