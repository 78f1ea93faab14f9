-- ===== src/File/Tree/Depth.antt =====
-- A tree of folders of internal/file/repository.go is less deep than there are rows of `folders`.
use cloud_box.Base.{
  ℕ, zero, suc, ◌≤◌, ◌<◌, ◌≡◌, ◌⊎◌, refl, sym, ap, subst, ◌∙◌, Bool, some, List, [], ◌∷◌, arith,
  inl, inr, Bool-cases, length, Has, leb,
}
use cloud_box.Sql.{find_where}
use cloud_box.File.Model.{Folder}
use cloud_box.File.Repository.Folders.{is_folder}
use cloud_box.File.Tree.{Rooted, root, below, folder_row}

-- A list without one of its elements.
pub record Without {A : Type 0} (x : A) (xs : List A) : Type 0 where
  pub rest : List A
  pub shorter : length xs ≡ suc (length rest)
  pub others : (y : A) → Has y xs → ((y ≡ x) ⊎ Has y rest)

without : {A : Type 0} (x : A) (xs : List A) → Has x xs → Without x xs
without x [] h = absurd h
without x (y ∷ xs) (inl e) = record {
  rest = xs;
  shorter = refl;
  others = λ z h. elim h [ inl f ↦ inl (f ∙ sym e) | inr k ↦ inr k ];
}
without x (y ∷ xs) (inr m) =
    let w = without x xs m in
    record {
      rest = y ∷ w.rest;
      shorter = ap suc w.shorter;
      others = λ z h. elim h [
        | inl f ↦ inr (inl f)
        | inr k ↦ elim (w.others z k) [ inl f ↦ inl f | inr l ↦ inr (inr l) ]
      ];
    }

-- Where each number below `m` is the rank of an element, there are `m` elements.
ranks-length :
    {A : Type 0} (R : A → ℕ → Type 0)
    → ((a : A) (k l : ℕ) → R a k → R a l → k ≡ l)
    → (m : ℕ) (xs : List A) → ((k : ℕ) → k < m → (a : A) × Has a xs × R a k)
    → m ≤ length xs
ranks-length R one zero xs h = omega arith
ranks-length {A} R one (suc m) xs h =
    let last = h m (omega arith) in
    let w = without last.0 xs last.1 in
    let fewer : m ≤ length w.rest = ranks-length R one m w.rest (λ k less. kept last w k less) in
    omega (arith, fewer, w.shorter)
  where
    kept :
        (last : (a : A) × Has a xs × R a m) (w : Without last.0 xs) (k : ℕ)
        → k < m
        → (a : A) × Has a w.rest × R a k
    kept last w k less =
        let found = h k (omega (arith, less)) in
        elim (w.others found.0 found.1) [
          | inl e ↦
              let same : k ≡ m = one last.0 k m (subst (λ a. R a k) e found.2) last.2 in
              absurd (omega (arith, same, less))
          | inr l ↦ (found.0, l, found.2)
        ]

find_where-Has :
    {A : Type 0} (p : A → Bool) (rows : List A) (r : A) → find_where p rows ≡ some r → Has r rows
unfolding find_where
find_where-Has p [] r e = cc
find_where-Has p (q ∷ rows) r e = elim (Bool-cases (p q)) [
  | inl t ↦ inl (cc (rw t at e))
  | inr t ↦ inr (find_where-Has p rows r (rw t at e))
]

module _ (user : ℕ) (folders : List Folder) where
  Rooted-unique : (id k l : ℕ) → Rooted user folders id k → Rooted user folders id l → k ≡ l
  Rooted-unique id k l (root i d e top) (root j c f up) = refl
  Rooted-unique id k l (root i d e top) (below j parent depth c f up r) =
      absurd (cc (e, f, top, up))
  Rooted-unique id k l (below i parent depth d e up r) (root j c f top) =
      absurd (cc (e, f, top, up))
  Rooted-unique id k l (below i p m d e up r) (below j q n c f up' r') =
      ap suc (Rooted-unique p m n r (subst (λ x. Rooted user folders x n) same r'))
    where
      same : q ≡ p
      same = cc (e, f, up, up')

  itself :
      (id depth : ℕ) (d : Folder)
      → find_where (is_folder user id) folders ≡ some d
      → Rooted user folders id depth
      → (e : Folder) × Has e folders × Rooted user folders e.id depth
  itself id depth d e r = (
    d,
    find_where-Has (is_folder user id) folders d e,
    subst (λ x. Rooted user folders x depth) (sym (folder_row user id folders d e)) r,
  )

  -- On the way to the root there is a folder of each smaller depth.
  at_depth :
      (id depth k : ℕ)
      → Rooted user folders id depth
      → k ≤ depth
      → (d : Folder) × Has d folders × Rooted user folders d.id k
  at_depth id depth k (root i d e top) le =
      subst (λ n. (d : Folder) × Has d folders × Rooted user folders d.id n) (omega (arith, le))
        (itself id 0 d e (root i d e top))
  at_depth id depth k (below i p m d e up r) le = elim (Bool-cases (leb k m)) [
    | inl t ↦ at_depth p m k r (ground arith)
    | inr t ↦
        subst (λ n. (d : Folder) × Has d folders × Rooted user folders d.id n) (ground (arith, le))
          (itself id (suc m) d e (below i p m d e up r))
  ]

  pub Rooted-length : (id depth : ℕ) → Rooted user folders id depth → depth < length folders
  Rooted-length id depth r = omega (
    arith,
    ranks-length (λ d k. Rooted user folders d.id k) (λ d. Rooted-unique d.id) (suc depth) folders
        (λ k less. at_depth id depth k r (omega (arith, less))),
  )
