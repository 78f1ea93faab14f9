-- ===== src/Share/Repository/Limit.antt =====
-- The limit on the downloads of a share.
use cloud_box.Base.{
  ℕ, ◌+◌, ◌-◌, ◌≤◌, ◌≡◌, refl, ap, subst, String, true, false, ◌&&◌, not, ◌||◌, Option, none, some,
  List, [], ◌∷◌, All, All-append, arith, str_eq, eq_iff, str_eq→eq, Bool-cases, inl, inr, and_left,
  and_right, is_some,
}
use cloud_box.Text.{is_empty}
use cloud_box.Sql.{find_where, update_where, affected}
use cloud_box.Sql.Laws.{All-update, All-delete, find_where-narrow, affected-zero}
use cloud_box.Sql.Keys.{Unique}
use cloud_box.Share.Model.{Share, Store}
use cloud_box.Share.Repository.{
  has_token, may_reserve, may_release, one_more, one_less, has_slot, unexpired, is_owned,
  file_has_id, limit_allowed, insert_share, reserve, release, delete_share,
}

abbrev pub share_token : Share → String
share_token h = h.token

abbrev pub UniqueTokens : List Share → Type 0
UniqueTokens = Unique str_eq eq_iff share_token

-- The count is within the limit, if there is one.
abbrev pub WithinLimit : Option ℕ → ℕ → Type 0
WithinLimit none n = Unit {0}
WithinLimit (some limit) n = n ≤ limit

abbrev pub IsWithin : Share → Type 0
IsWithin h = WithinLimit h.max_downloads h.download_count

-- The statements that shares send, each atomic, by any number of requests in any order.
pub data Statement (C G : Type 0) : Type 0 where
  inserts : Share → Statement C G
  reserves : String → Statement C G
  releases : String → Statement C G
  deletes : ℕ → String → Statement C G
  passes : ℕ → Statement C G

module _ {C G : Type 0} where
  unfoldable pub step : Store C G → Statement C G → Store C G
  unfolding insert_share reserve release delete_share
  step s (inserts h) = (insert_share h s).1
  step s (reserves token) = (reserve token s).1
  step s (releases token) = release token s
  step s (deletes user token) = (delete_share user token s).1
  step s (passes n) = record s { clock = s.clock + n }

  unfoldable pub run : Store C G → List (Statement C G) → Store C G
  run s [] = s
  run s (e ∷ es) = run (step s e) es

within_zero : (limit : Option ℕ) → WithinLimit limit 0
within_zero none = tt
within_zero (some n) = omega arith

within_more : (limit : Option ℕ) (n : ℕ) → has_slot limit n ≡ true → WithinLimit limit (n + 1)
within_more none n h = tt
within_more (some m) n h = ground arith

within_less : (limit : Option ℕ) (n : ℕ) → WithinLimit limit n → WithinLimit limit (n - 1)
within_less none n h = tt
within_less (some m) n h = omega (arith, h)

module _ {C G : Type 0} where
  insert_share-IsWithin :
      (h : Share) (s : Store C G) → All IsWithin s.shares → All IsWithin (insert_share h s).1.shares
  unfolding insert_share
  insert_share-IsWithin h s a =
      elim (Bool-cases (is_some (find_where (has_token h.token) s.shares))) [
        | inl e ↦ rw e a
        | inr e ↦ elim (Bool-cases (is_empty h.token || not (limit_allowed h.max_downloads))) [
          | inl f ↦ rw (e, f) a
          | inr f ↦
              elim (Bool-cases (is_some (find_where (file_has_id h.user_file_id) s.user_files))) [
                | inl g ↦
                    rw (e, f, g)
                      (All-append IsWithin s.shares _ a (within_zero h.max_downloads, tt))
                | inr g ↦ rw (e, f, g) a
              ]
        ]
      ]

  step-IsWithin :
      (s : Store C G) (e : Statement C G) → All IsWithin s.shares → All IsWithin (step s e).shares
  unfolding step reserve release delete_share
  step-IsWithin s (inserts h) a = insert_share-IsWithin h s a
  step-IsWithin s (reserves token) a =
      All-update IsWithin (may_reserve token s.clock) one_more s.shares
        (λ h t w. within_more h.max_downloads h.download_count (
          and_right (has_token token h && unexpired s.clock h.expires_at)
            (has_slot h.max_downloads h.download_count) t))
        a
  step-IsWithin s (releases token) a =
      All-update IsWithin (may_release token) one_less s.shares
        (λ h t w. within_less h.max_downloads h.download_count w) a
  step-IsWithin s (deletes user token) a =
      All-delete IsWithin (is_owned user token s.user_files) s.shares a
  step-IsWithin s (passes n) a = a

  -- No share is downloaded more often than its limit allows: if that holds of all shares, then it
  -- holds after any number of reservations, releases, new shares and revocations, in any order.
  pub run-IsWithin :
      (s : Store C G) (es : List (Statement C G))
      → All IsWithin s.shares
      → All IsWithin (run s es).shares
  unfolding run
  run-IsWithin s [] a = a
  run-IsWithin s (e ∷ es) a = run-IsWithin (step s e) es (step-IsWithin s e a)

-- Rows of other tokens are left alone.
release_none :
    (token : String) (rows : List Share)
    → find_where (has_token token) rows ≡ none
    → update_where (may_release token) one_less rows ≡ rows
unfolding update_where find_where
release_none token [] e = refl
release_none token (h ∷ rows) e = elim (Bool-cases (has_token token h)) [
  | inl t ↦ cc (rw t at e)
  | inr t ↦ rw (t, release_none token rows (rw t at e)) refl
]

reserve_none :
    (token : String) (now : ℕ) (rows : List Share)
    → find_where (has_token token) rows ≡ none
    → update_where (may_reserve token now) one_more rows ≡ rows
unfolding update_where find_where
reserve_none token now [] e = refl
reserve_none token now (h ∷ rows) e = elim (Bool-cases (has_token token h)) [
  | inl t ↦ cc (rw t at e)
  | inr t ↦ rw (t, reserve_none token now rows (rw t at e)) refl
]

-- The row that one has taken a slot of, and given it back.
one_less-one_more : (h : Share) → one_less (one_more h) ≡ h
one_less-one_more h = ap (λ n. record h { download_count = n }) (omega arith)

alone :
    (token : String) (h : Share) (rows : List Share)
    → has_token token h ≡ true
    → find_where (has_token h.token) rows ≡ none
    → find_where (has_token token) rows ≡ none
alone token h rows mine e =
    subst (λ k. find_where (has_token k) rows ≡ none) (str_eq→eq h.token token mine) e

-- If a later row is the one that is reserved, this row has another token.
other_token :
    (token : String) (now : ℕ) (h : Share) (rows : List Share)
    → find_where (has_token h.token) rows ≡ none
    → affected (may_reserve token now) rows ≡ 1
    → has_token token h ≡ false
other_token token now h rows fresh counted = elim (Bool-cases (has_token token h)) [
  | inr apart ↦ apart
  | inl mine ↦
      let none_left =
        find_where-narrow (has_token token) (may_reserve token now) rows
          (alone token h rows mine fresh)
          (λ r t. and_left (has_token token r) (unexpired now r.expires_at) (
            and_left (has_token token r && unexpired now r.expires_at)
              (has_slot r.max_downloads r.download_count) t)) in
      absurd (omega (arith, counted, affected-zero (may_reserve token now) rows none_left))
]

-- A release undoes a reservation that was granted: where no two shares have the same token and a
-- reservation has taken a slot, releasing it gives back the shares as they were.
pub release-reserve :
    (token : String) (now : ℕ) (rows : List Share)
    → UniqueTokens rows
    → affected (may_reserve token now) rows ≡ 1
    → update_where (may_release token) one_less (update_where (may_reserve token now) one_more rows)
      ≡ rows
unfolding update_where affected
release-reserve token now [] u e = refl
release-reserve token now (h ∷ rows) u e = elim (Bool-cases (may_reserve token now h)) [
  | inl t ↦
      let mine : has_token token h ≡ true =
        and_left (has_token token h) (unexpired now h.expires_at) (
          and_left (has_token token h && unexpired now h.expires_at)
            (has_slot h.max_downloads h.download_count) t) in
      let none_left = alone token h rows mine u.0 in
      let held : may_release token (one_more h) ≡ true = rw mine (ground arith) in
      rw (t, held, reserve_none token now rows none_left, release_none token rows none_left)
        (ap (λ g. g ∷ rows) (one_less-one_more h))
  | inr t ↦
      let counted : affected (may_reserve token now) rows ≡ 1 = rw t at e in
      let ih = release-reserve token now rows u.1 counted in
      let apart : has_token token h ≡ false = other_token token now h rows u.0 counted in
      rw (t, apart, ih) refl
]
