-- ===== src/Share/Control/Lock.antt =====
-- When the passwords of a visitor are locked.
use cloud_box.Base.{
  ℕ, ◌+◌, ◌<◌, ◌≡◌, refl, ap, subst, true, false, none, List, [], ◌∷◌, arith, leb, ltb, Bool-cases,
  inl, inr, length,
}
use cloud_box.Sql.{find_where, delete_where}
use cloud_box.Share.Control.{
  AccessKey, same_key, AccessControl, PasswordFailures, failures_of, failures_found, with_failures,
  password_locked, record_password_failure, clear_password_failures, password_failure_limit,
  password_lock_duration,
}
use cloud_box.Share.Control.Rate.{same_key_refl}

-- Wrong passwords of one visitor, at these times.
unfoldable pub fail_at : AccessKey → List ℕ → AccessControl → AccessControl
fail_at key [] c = c
fail_at key (t ∷ ts) c = fail_at key ts (record_password_failure key t c)

module _ (key : AccessKey) where
  found_new :
      (n til : ℕ) (c : AccessControl)
      → failures_of key (with_failures key n til c)
        ≡ record { key = key; count = n; locked_til = til }
  unfolding failures_of find_where
  found_new n til c = rw (same_key_refl key) refl

  -- The entry of a visitor with `n` failures and no lock.
  record Counted (n : ℕ) (c : AccessControl) : Type 0 where
    count : (failures_of key c).count ≡ n
    open_til : (failures_of key c).locked_til ≡ 0

  delete_none :
      (fs : List PasswordFailures)
      → find_where (λ f. same_key f.key key) (delete_where (λ f. same_key f.key key) fs) ≡ none
  unfolding find_where delete_where
  delete_none [] = refl
  delete_none (f ∷ fs) = elim (Bool-cases (same_key f.key key)) [
    | inl e ↦ rw e (delete_none fs)
    | inr e ↦ rw (e, e) (delete_none fs)
  ]

  cleared : (c : AccessControl) → Counted 0 (clear_password_failures key c)
  unfolding failures_of clear_password_failures
  cleared c = record {
    count = ap (λ f. (failures_found key f).count) (delete_none c.password);
    open_til = ap (λ f. (failures_found key f).locked_til) (delete_none c.password);
  }

  one_more :
      (n t : ℕ) (c : AccessControl)
      → Counted n c
      → n + 1 < password_failure_limit
      → Counted (n + 1) (record_password_failure key t c)
  unfolding record_password_failure
  one_more n t c k below =
      rw (k.open_til, k.count)
        (let few : leb password_failure_limit (n + 1) ≡ false = ground arith in
          let opened : ltb t 0 ≡ false = ground arith in
          rw (few, opened)
            (record {
              count = rw (found_new (n + 1) 0 c) refl;
              open_til = rw (found_new (n + 1) 0 c) refl;
            }))

  some_more :
      (ts : List ℕ) (n : ℕ) (c : AccessControl)
      → Counted n c
      → n + length ts < password_failure_limit
      → Counted (n + length ts) (fail_at key ts c)
  unfolding fail_at
  some_more [] n c k below = subst (λ m. Counted m c) (omega arith) k
  some_more (t ∷ ts) n c k below =
      subst (λ m. Counted m (fail_at key ts (record_password_failure key t c))) (omega arith)
        (some_more ts (n + 1) (record_password_failure key t c) (one_more n t c k (omega arith))
          (omega arith))

  last_one :
      (n t now : ℕ) (c : AccessControl)
      → Counted n c
      → n + 1 ≡ password_failure_limit
      → password_locked key now (record_password_failure key t c)
        ≡ ltb now (t + password_lock_duration)
  unfolding record_password_failure password_locked
  last_one n t now c k five =
      rw (k.open_til, k.count)
        (let all : leb password_failure_limit (n + 1) ≡ true = ground arith in
          let opened : ltb t 0 ≡ false = ground arith in
          rw (all, opened, found_new 0 (t + password_lock_duration) c) refl)

-- After the failures of a visitor are cleared, fewer than five wrong passwords lock nothing, at any
-- time. A fifth locks the visitor until just ten minutes after it, and wrong passwords that
-- come while the lock holds change nothing: they neither count nor make it longer.
pub password_locked_lem :
    (key : AccessKey) (c : AccessControl) (ts : List ℕ) (now : ℕ)
    → (length ts < password_failure_limit
        → password_locked key now (fail_at key ts (clear_password_failures key c)) ≡ false)
      × ((last : ℕ)
          → length ts + 1 ≡ password_failure_limit
          → (password_locked key now
                (record_password_failure key last (fail_at key ts (clear_password_failures key c)))
              ≡ ltb now (last + password_lock_duration)))
      × (password_locked key now c ≡ true → record_password_failure key now c ≡ c)
unfolding password_locked record_password_failure
password_locked_lem key c ts now = (
  (λ below.
      let k = some_more key ts 0 (clear_password_failures key c) (cleared key c) (omega arith) in
      rw k.open_til (ground arith)),
  (λ last five.
      let k = some_more key ts 0 (clear_password_failures key c) (cleared key c) (omega arith) in
      last_one key (0 + length ts) last now (fail_at key ts (clear_password_failures key c)) k
        (omega arith)),
  λ locked. rw locked refl,
)
