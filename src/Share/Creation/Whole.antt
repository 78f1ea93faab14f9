-- ===== src/Share/Creation/Whole.antt =====
-- `Create` of internal/share/service.go as a whole, where all calls work.
use cloud_box.Base.{
  ℕ, ◌≡◌, refl, sym, ◌∙◌, ap, subst, String, Bool, true, false, not, ◌&&◌, Option, some,
  if◌then◌else◌, ltb, is_some, ℤ, ◌==◌,
}
use cloud_box.Fail.{Result, file_not_found, share_expiration_invalid}
use cloud_box.Exec.{Exec, works, raise, lift, gets, ◌>>=◌}
use cloud_box.Exec.Works.{Works, Post, raise-Works, gets-Works, query-Works, if-Works, bind-Works}
use cloud_box.File.Model.{is_active}
use cloud_box.Sql.{find_where}
use cloud_box.Share.Model.{Share, Store}
use cloud_box.Share.Repository.{file_has_id, create, has_active_file}
use cloud_box.Share.Service.{Setup}
use cloud_box.Share.Public.{create_share, limit_of, expiry_of, hash_given}
use cloud_box.Share.Creation.{owns, Created, Before, Unchanged, lifted, asked, insert-Works}

module _ {C G : Type 0} (setup : Setup C G) (user file : ℕ) (password : String)
    (expires_at : Option ℕ) (max_downloads : Option ℤ) (token : Result String)
    (s0 : Store C G) where
  -- Where all calls work: a share that is made is one of an active file of the user, with a term in the
  -- future (a week from now if none is given), a limit above zero if there is one, no download yet, and
  -- the token drawn, which no share had; it is found under its token, and no other row has changed.
  -- If none is made, the shares are as they were.
  pub create_share_lem :
      Post
        (Created setup user file password expires_at max_downloads token s0)
        (Unchanged setup user file password expires_at max_downloads token s0)
        (create_share setup user file password expires_at max_downloads token (works s0)).0
        (create_share setup user file password expires_at max_downloads token (works s0)).1.store
  unfolding create_share has_active_file
  create_share_lem = (whole.at s0 refl).1
    where
      made :
          (owned : (owns setup user file password expires_at max_downloads token s0) ≡ true)
          → ltb s0.clock (expiry_of s0.clock expires_at) ≡ true
          → Works
              (Before setup user file password expires_at max_downloads token s0)
              (do
                limit ← lift (limit_of max_downloads)
                password_hash ← lift (hash_given setup password)
                drawn ← lift token
                create (
                    (asked setup user file password expires_at max_downloads token s0) drawn
                      password_hash limit))
              (Created setup user file password expires_at max_downloads token s0)
              (Unchanged setup user file password expires_at max_downloads token s0)
      made owned future =
          bind-Works _ _
            ((lifted setup user file password expires_at max_downloads token s0)
              (limit_of max_downloads))
            λ limit. record {
              at = λ s (p, l).
                  (bind-Works _ _
                      ((lifted setup user file password expires_at max_downloads token s0)
                        (hash_given setup password))
                      λ hashed. record {
                        at = λ t (q, m).
                            (bind-Works _ _
                                ((lifted setup user file password expires_at max_downloads token s0)
                                  token)
                                λ drawn. record {
                                  at = λ u (r, n).
                                      ((insert-Works setup user file password expires_at
                                            max_downloads token s0)
                                          ((asked setup user file password expires_at max_downloads
                                              token s0)
                                            drawn hashed limit)
                                          refl
                                          λ v rows fresh row. record {
                                            owned = owned;
                                            file_id = refl;
                                            expires = refl;
                                            future = future;
                                            limit = l;
                                            hashed = m;
                                            drawn = n;
                                            unused = refl;
                                            row = row;
                                            fresh = fresh;
                                            rows = rows;
                                          }).at
                                        u r;
                                }).at
                              t q;
                      }).at
                    s p;
            }

      looked :
          Works
            (Before setup user file password expires_at max_downloads token s0)
            (has_active_file user file)
            (λ has s.
              (Before setup user file password expires_at max_downloads token s0) s
              × (has ≡ (owns setup user file password expires_at max_downloads token s0)))
            (Unchanged setup user file password expires_at max_downloads token s0)
      looked = query-Works _ λ s e. (
        e,
        ap
            (λ t. is_some (
              find_where (λ f. (file_has_id file f && f.user_id == user) && is_active f.status)
                t.user_files))
            e,
      )

      read_clock :
          (has : Bool)
          → Works
              (λ s.
                (Before setup user file password expires_at max_downloads token s0) s
                × (has ≡ (owns setup user file password expires_at max_downloads token s0)))
              (gets (λ s. s.clock))
              (λ now s.
                (Before setup user file password expires_at max_downloads token s0) s
                × (has ≡ (owns setup user file password expires_at max_downloads token s0))
                × (now ≡ s0.clock))
              (Unchanged setup user file password expires_at max_downloads token s0)
      read_clock has = gets-Works (λ s. s.clock) λ s p. (p.0, p.1, ap (λ t. t.clock) p.0)

      is_true : (has : Bool) → not has ≡ false → has ≡ true
      is_true true e = refl
      is_true false e = cc

      from : ℕ → Exec (Store C G) Share
      from now =
          if not (ltb now (expiry_of now expires_at)) then raise share_expiration_invalid else do
            limit ← lift (limit_of max_downloads)
            password_hash ← lift (hash_given setup password)
            drawn ← lift token
            create (record {
              token = drawn;
              user_file_id = file;
              password_hash = password_hash;
              expires_at = some (expiry_of now expires_at);
              max_downloads = limit;
              download_count = 0;
              created_at = 0;
            })

      timed :
          (owns setup user file password expires_at max_downloads token s0) ≡ true
          → Works
              (Before setup user file password expires_at max_downloads token s0)
              (from s0.clock)
              (Created setup user file password expires_at max_downloads token s0)
              (Unchanged setup user file password expires_at max_downloads token s0)
      timed owned =
          if-Works (not (ltb s0.clock (expiry_of s0.clock expires_at)))
            (raise share_expiration_invalid) _
            (λ _. raise-Works share_expiration_invalid λ s p. ap (λ t. t.shares) p)
            (λ future. made owned (is_true _ future))

      whole :
          Works
            (Before setup user file password expires_at max_downloads token s0)
            (create_share setup user file password expires_at max_downloads token)
            (Created setup user file password expires_at max_downloads token s0)
            (Unchanged setup user file password expires_at max_downloads token s0)
      whole = bind-Works _ _ looked λ has.
          if-Works (not has) (raise file_not_found) _
            (λ _. raise-Works file_not_found λ s p. ap (λ t. t.shares) p.0)
            (λ yes. bind-Works _ _ (read_clock has) λ now. record {
              at = λ s p.
                  (subst
                      (λ n.
                        Works (Before setup user file password expires_at max_downloads token s0)
                          (from n)
                          (Created setup user file password expires_at max_downloads token s0)
                          (Unchanged setup user file password expires_at max_downloads token s0))
                      (sym p.2) (timed (sym p.1 ∙ is_true has yes))).at
                    s p.0;
            })
