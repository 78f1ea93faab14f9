-- ===== src/Share/Download.antt =====
-- `OpenForDownloadFromIP` of internal/share/service.go, where all calls work.
pub mod Serve
use cloud_box.Base.{
  ◌≡◌, ◌+◌, refl, sym, ◌∙◌, ap, subst, String, Bool, true, false, not, ◌&&◌, some, [], ◌∷◌, ◌++◌,
  Option-cases, inl, inr, if◌then◌else◌, ◌==◌, eq_iff, str_eq, str_eq→eq, and_left,
}
use cloud_box.Fail.{Result, ok, err, share_download_rate_limit}
use cloud_box.Exec.{works, pure, query, call, attempt, ◌>>=◌, write}
use cloud_box.Exec.Works.{
  Works, Post, pure-Works, gets-Works, call-Works, query-Works, if-Works, bind-Works, attempt-Works,
  pre-Works, post-Works, on_error-Works,
}
use cloud_box.Disk.{Bytes}
use cloud_box.Sql.{find_where, update_where, affected, insert_row}
use cloud_box.Sql.Laws.{update_where-none, affected-zero, find_where-holds}
use cloud_box.Sql.Keys.{affected-keyed}
use cloud_box.Share.Model.{
  Share, SharedFile, AccessAudit, Store, download, allowed, denied, rate_limited,
}
use cloud_box.Share.Repository.{
  has_token, may_reserve, one_more, unexpired, has_slot, reserve, reserve_download, find_by_token,
  scan_share, record_share_access,
}
use cloud_box.Share.Repository.Limit.{UniqueTokens, share_token}
use cloud_box.Share.Service.{
  Setup, audit, refuse, or_refuse, close_reader, allow_download, access_control_error,
}
use cloud_box.Share.Public.{close_and_raise, say_why, take_slot, open_for_download_from_ip}
use cloud_box.Share.Access.{
  PolicyRuns, Same, Silent, Same-refl, on_control-Works, refuse-Works, or_refuse-Works,
  or_deny-Works,
}
use cloud_box.Share.Visit.{Accessible}

abbrev pub allowed_audit : String → String → AccessAudit
allowed_audit token ip = record { token = token; ip_hash = ip; action = download; result = allowed }

module _ {C G : Type 0} (setup : Setup C G) (s0 : Store C G) (token password ip : String) where
  abbrev can : Share → Bool
  can h = may_reserve token s0.clock h

  -- One slot has been taken, and nothing else in the tables has changed.
  pub record Taken (s : Store C G) : Type 0 where
    pub one : affected can s0.shares ≡ 1
    pub shares :
        s.shares
        ≡ update_where can (λ h. record h { download_count = h.download_count + 1 }) s0.shares

  -- A visitor who may have the file got its bytes, for one slot, and that is on record.
  pub record Served (file : SharedFile) (reader : Bytes) (s : Store C G) : Type 0 where
    pub accessible : Accessible setup s0 token password true file
    pub read : setup.opens file.storage_path ≡ ok reader
    pub taken : Taken s
    pub audited : s.audits ≡ s0.audits ++ allowed_audit token ip ∷ []

  abbrev pub Gave : SharedFile × Bytes → Store C G → Type 0
  Gave (file, reader) s = Served file reader s

  abbrev pub Reserved : Bool → Store C G → Type 0
  Reserved true s = Taken s × (s.audits ≡ s0.audits)
  Reserved false s = Silent s0 s

module _ {C G : Type 0} (setup : Setup C G) (runs : PolicyRuns setup.policy) (s0 : Store C G)
    (unique : UniqueTokens s0.shares) (token password ip : String) where
  reserve_effect :
      (s : Store C G)
      → Silent s0 s
      → Reserved setup s0 token password ip
          (affected (may_reserve token s.clock) s.shares == 1)
          (reserve token s).1
  unfolding reserve
  reserve_effect s (p, a) =
      let counted : affected (may_reserve token s.clock) s.shares
          ≡ affected (may_reserve token s0.clock) s0.shares =
        ap (λ c. affected (may_reserve token c) s.shares) p.clock
        ∙ ap (affected (may_reserve token s0.clock)) p.shares in
      let rows : update_where (may_reserve token s.clock) one_more s.shares
          ≡ update_where (may_reserve token s0.clock) one_more s0.shares =
        ap (λ c. update_where (may_reserve token c) one_more s.shares) p.clock
        ∙ ap (update_where (may_reserve token s0.clock) one_more) p.shares in
      elim (Option-cases (find_where (may_reserve token s0.clock) s0.shares)) [
        | inl e ↦
            rw (counted, affected-zero (may_reserve token s0.clock) s0.shares e)
              (
                record {
                  shares =
                      rows ∙ update_where-none (may_reserve token s0.clock) one_more s0.shares e;
                  user_files = p.user_files;
                  objects = p.objects;
                  previews = p.previews;
                  clock = p.clock;
                },
                a,
              )
        | inr (h, e) ↦
            let one = one_row h e in rw (counted, one) (record { one = one; shares = rows }, a)
      ]
    where
      token_of : (q : Share) → (may_reserve token s0.clock) q ≡ true → q.token ≡ token
      token_of q t = str_eq→eq q.token token (
          and_left (has_token token q) (unexpired s0.clock q.expires_at) (
            and_left (has_token token q && unexpired s0.clock q.expires_at)
              (has_slot q.max_downloads q.download_count) t))

      one_row :
          (h : Share)
          → find_where (may_reserve token s0.clock) s0.shares ≡ some h
          → affected (may_reserve token s0.clock) s0.shares ≡ 1
      one_row h e =
          affected-keyed str_eq eq_iff share_token (may_reserve token s0.clock) s0.shares h unique
            (λ q t.
              token_of q t
              ∙ sym (token_of h (find_where-holds (may_reserve token s0.clock) s0.shares h e)))
            e

  pub reserve_download-Works :
      Works
        (Silent s0)
        (reserve_download token)
        (λ b s. Reserved setup s0 token password ip b s)
        (λ e s. ⊥)
  unfolding reserve_download reserve
  reserve_download-Works =
      bind-Works _ _ (called) λ n.
        bind-Works _ _ (query-Works (λ s. ok n) λ s p. p) λ rows. pure-Works (rows == 1) λ s p. p
    where
      called :
          Works
            (Silent s0)
            (call (reserve token))
            (λ n s. Reserved setup s0 token password ip (n == 1) s)
            (λ e s. ⊥)
      called = call-Works _ λ s p. reserve_effect s p

  pub allow_download-Works :
      Works (Silent s0) (allow_download setup token ip) (λ _ s. Silent s0 s) (λ e s. Same s0 s)
  unfolding allow_download
  allow_download-Works =
      on_error-Works access_control_error _
        (post-Works _ (λ a s p. p) (λ e s p. p.0) (on_control-Works _))
