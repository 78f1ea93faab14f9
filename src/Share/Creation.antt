-- ===== src/Share/Creation.antt =====
-- `Create` of internal/share/service.go, where all calls work.
pub mod Whole
use cloud_box.Base.{
  ℕ, ◌≡◌, refl, sym, ◌∙◌, ap, subst, String, Bool, true, false, not, ◌&&◌, ◌||◌, Option, none, some,
  List, [], ◌∷◌, ◌++◌, Bool-cases, Option-cases, inl, inr, if◌then◌else◌, ltb, is_some, str_eq,
  eq_iff, str_eq_refl, ℤ, ◌==◌,
}
use cloud_box.Fail.{Error, Result, ok, err, file_not_found, share_expiration_invalid}
use cloud_box.Exec.{Exec, works, raise, lift, gets, call, ◌>>=◌}
use cloud_box.Exec.Works.{
  Works, Post, raise-Works, lift-Works, gets-Works, call-Works, query-Works, if-Works, bind-Works,
}
use cloud_box.Text.{is_empty}
use cloud_box.File.Model.{is_active}
use cloud_box.Sql.{find_where}
use cloud_box.Sql.Keys.{find_where-insert}
use cloud_box.Share.Model.{Share, Store}
use cloud_box.Share.Repository.{
  has_token, file_has_id, limit_allowed, insert_share, create, find_by_token, has_active_file,
}
use cloud_box.Share.Repository.Limit.{share_token}
use cloud_box.Share.Service.{Setup}
use cloud_box.Share.Public.{create_share, limit_of, expiry_of, hash_given}

module _ {C G : Type 0} (setup : Setup C G) (user file : ℕ) (password : String)
    (expires_at : Option ℕ) (max_downloads : Option ℤ) (token : Result String)
    (s0 : Store C G) where
  abbrev pub owns : Bool
  owns = is_some (
      find_where (λ f. (file_has_id file f && f.user_id == user) && is_active f.status)
        s0.user_files)

  -- The new share is as it was asked for, and is the only row that has been added.
  pub record Created (h : Share) (s : Store C G) : Type 0 where
    pub owned : owns ≡ true
    pub file_id : h.user_file_id ≡ file
    pub expires : h.expires_at ≡ some (expiry_of s0.clock expires_at)
    pub future : ltb s0.clock (expiry_of s0.clock expires_at) ≡ true
    pub limit : limit_of max_downloads ≡ ok h.max_downloads
    pub hashed : hash_given setup password ≡ ok h.password_hash
    pub drawn : token ≡ ok h.token
    pub unused : h.download_count ≡ 0
    pub row : find_where (has_token h.token) s.shares ≡ some h
    pub fresh : find_where (has_token h.token) s0.shares ≡ none
    pub rows : s.shares ≡ s0.shares ++ h ∷ []

  abbrev pub Before : Store C G → Type 0
  Before s = s ≡ s0

  abbrev pub Unchanged : Error → Store C G → Type 0
  Unchanged e s = s.shares ≡ s0.shares

  -- A result of a function, with what it is.
  pub lifted :
      {A : Type 0} (r : Result A) → Works Before (lift r) (λ a s. Before s × (r ≡ ok a)) Unchanged
  lifted r = lift-Works r λ s e. by_result r s e r refl
    where
      by_result :
          {A : Type 0} (r : Result A) (s : Store C G)
          → Before s
          → (q : Result A) → q ≡ r
          → Post (λ a t. Before t × (q ≡ ok a)) Unchanged r s
      by_result (ok a) s e q p = (e, p)
      by_result (err x) s e q p = ap (λ t. t.shares) e

  -- The row that is inserted.
  abbrev pub asked : String → String → Option ℕ → Share
  asked drawn hashed limit = record {
    token = drawn;
    user_file_id = file;
    password_hash = hashed;
    expires_at = some (expiry_of s0.clock expires_at);
    max_downloads = limit;
    download_count = 0;
    created_at = 0;
  }

  -- What the insertion leaves, and the row that is read back.
  insert_share_lem :
      (h : Share)
      → h.download_count ≡ 0
      → Post
          (λ _ s.
            (s.shares ≡ s0.shares ++ record h { created_at = s0.clock } ∷ [])
            × (find_where (has_token h.token) s0.shares ≡ none))
          Unchanged
          (insert_share h s0).0
          (insert_share h s0).1
  unfolding insert_share
  insert_share_lem h zero_count = elim (Option-cases (find_where (has_token h.token) s0.shares)) [
    | inr (old, e) ↦ rw e refl
    | inl e ↦ elim (Bool-cases (is_empty h.token || not (limit_allowed h.max_downloads))) [
      | inl f ↦ rw (e, f) refl
      | inr f ↦
          elim (Bool-cases (is_some (find_where (file_has_id h.user_file_id) s0.user_files))) [
            | inl g ↦
                rw (e, f, g)
                  (
                    ap
                        (λ n.
                          s0.shares ++ record h { download_count = n; created_at = s0.clock } ∷ [])
                        (sym zero_count),
                    refl,
                  )
            | inr g ↦ rw (e, f, g) refl
          ]
    ]
  ]

  -- The row of the new token.
  row_of :
      (h : Share) (rows : List Share)
      → find_where (has_token h.token) rows ≡ none
      → find_where (has_token h.token) (rows ++ h ∷ []) ≡ some h
  row_of h rows e =
      rw
        (
          find_where-insert str_eq eq_iff share_token (has_token h.token) rows h,
          e,
          str_eq_refl h.token,
        )
        refl

  pub insert-Works :
      (h : Share)
      → h.download_count ≡ 0
      → ((s : Store C G)
          → s.shares ≡ s0.shares ++ record h { created_at = s0.clock } ∷ []
          → find_where (has_token h.token) s0.shares ≡ none
          → find_where (has_token h.token) s.shares ≡ some (record h { created_at = s0.clock })
          → Created (record h { created_at = s0.clock }) s)
      → Works Before (create h) Created Unchanged
  unfolding create find_by_token
  insert-Works h zero_count make = bind-Works _ _ inserted λ _. query-Works _ λ s (rows, fresh).
      let k : Share = record h { created_at = s0.clock } in
      let row : find_where (has_token h.token) s.shares ≡ some k =
        ap (find_where (has_token h.token)) rows ∙ row_of k s0.shares fresh in
      rw row (make s rows fresh row)
    where
      Made : Store C G → Type 0
      Made t =
          Post
            (λ _ s.
              (s.shares ≡ s0.shares ++ record h { created_at = s0.clock } ∷ [])
              × (find_where (has_token h.token) s0.shares ≡ none))
            Unchanged (insert_share h t).0 (insert_share h t).1

      inserted :
          Works Before
            (call (insert_share h))
            (λ _ s.
              (s.shares ≡ s0.shares ++ record h { created_at = s0.clock } ∷ [])
              × (find_where (has_token h.token) s0.shares ≡ none))
            Unchanged
      inserted = call-Works _ λ s e. subst Made (sym e) (insert_share_lem h zero_count)
