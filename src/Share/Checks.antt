-- ===== src/Share/Checks.antt =====
-- What validateShareAccess of internal/share/service.go has found out when it returns no error.
use cloud_box.Base.{
  ℕ, ◌≡◌, ◌<◌, ◌⊎◌, String, Bool, true, false, ◌&&◌, Option, none, some, Bool-cases, inl, inr,
  arith,
}
use cloud_box.Fail.{Result, ok, err}
use cloud_box.Text.{is_empty}
use cloud_box.Share.Model.{Share}
use cloud_box.Share.Repository.{unexpired}
use cloud_box.Share.Service.{validate_share_access, check_password, then_slot, limit_reached}

-- A time limit, if there is one, is still to come.
abbrev pub IsBefore : ℕ → Option ℕ → Type 0
IsBefore now none = Unit {0}
IsBefore now (some t) = now < t

-- The share has no password, or one is given and bcrypt finds that it is the one.
abbrev pub Opens : (String → String → Bool) → String → String → Type 0
Opens matches stored password =
    (is_empty stored ≡ true) ⊎ ((is_empty password ≡ false) × (matches stored password ≡ true))

-- Where it is asked for, a download is left below the limit, if there is one.
abbrev pub IsBelow : Bool → Option ℕ → ℕ → Type 0
IsBelow false limit count = Unit {0}
IsBelow true none count = Unit {0}
IsBelow true (some limit) count = count < limit

unexpired-IsBefore : (now : ℕ) (o : Option ℕ) → unexpired now o ≡ true → IsBefore now o
unexpired-IsBefore now none e = tt
unexpired-IsBefore now (some t) e = ground arith

limit_reached-IsBelow :
    (require : Bool) (limit : Option ℕ) (count : ℕ)
    → (require && limit_reached limit count) ≡ false
    → IsBelow require limit count
limit_reached-IsBelow false limit count e = tt
limit_reached-IsBelow true none count e = tt
limit_reached-IsBelow true (some limit) count e = ground arith

check_password-Opens :
    (matches : String → String → Bool) (stored password : String)
    → check_password matches stored password ≡ ok tt
    → Opens matches stored password
check_password-Opens matches stored password e = ground arith

then_slot-ok :
    (r : Result (Unit {0})) (require : Bool) (share : Share)
    → then_slot r require share ≡ ok tt
    → (r ≡ ok tt) × ((require && limit_reached share.max_downloads share.download_count) ≡ false)
then_slot-ok (err e) require share v = cc
then_slot-ok (ok tt) require share v = ground arith

module _ (matches : String → String → Bool) (now : ℕ) (share : Share) (password : String)
    (require : Bool) where
  pub validated :
      validate_share_access matches now share password require ≡ ok tt
      → IsBefore now share.expires_at
        × Opens matches share.password_hash password
        × IsBelow require share.max_downloads share.download_count
  unfolding validate_share_access
  validated v = elim (Bool-cases (unexpired now share.expires_at)) [
    | inr t ↦ absurd (cc (rw t at v))
    | inl t ↦
        let k =
          then_slot-ok (check_password matches share.password_hash password) require share
            (rw t at v) in
        (
          unexpired-IsBefore now share.expires_at t,
          check_password-Opens matches share.password_hash password k.0,
          limit_reached-IsBelow require share.max_downloads share.download_count k.1,
        )
  ]
