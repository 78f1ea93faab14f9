-- ===== src/Share/Control.antt =====
-- `AccessControl` of internal/share/access_control.go: the controls that a process keeps in memory. A map
-- is a list of entries, the newest first; a missing key is Go's zero value, whose time is zero. Times
-- are nanoseconds.
pub mod Rate
pub mod Lock
use cloud_box.Base.{
  ℕ, ◌+◌, ◌-◌, ◌*◌, String, Bool, true, false, ◌&&◌, not, Option, none, some, List, [], ◌∷◌, ltb,
  leb, str_eq, if◌then◌else◌,
}
use cloud_box.Fail.{ok}
use cloud_box.Sql.{find_where, delete_where}
use cloud_box.Share.Model.{AccessController}

abbrev pub download_rate_limit : ℕ
download_rate_limit = 20

-- time.Minute
abbrev pub download_rate_window : ℕ
download_rate_window = 60 * 1000000000

abbrev pub password_failure_limit : ℕ
password_failure_limit = 5

abbrev pub password_lock_duration : ℕ
password_lock_duration = 10 * (60 * 1000000000)

pub record AccessKey : Type 0 where
  pub token : String
  pub ip_hash : String

abbrev pub same_key : AccessKey → AccessKey → Bool
same_key a b = str_eq a.token b.token && str_eq a.ip_hash b.ip_hash

pub record DownloadWindow : Type 0 where
  pub key : AccessKey
  pub started_at : ℕ
  pub count : ℕ

pub record PasswordFailures : Type 0 where
  pub key : AccessKey
  pub count : ℕ
  pub locked_til : ℕ

pub record AccessControl : Type 0 where
  pub download : List DownloadWindow
  pub password : List PasswordFailures

abbrev pub no_control : AccessControl
no_control = record { download = []; password = [] }

abbrev pub window_of : AccessKey → AccessControl → Option DownloadWindow
window_of key c = find_where (λ w. same_key w.key key) c.download

abbrev pub failures_found : AccessKey → Option PasswordFailures → PasswordFailures
failures_found key none = record { key = key; count = 0; locked_til = 0 }
failures_found key (some f) = f

-- `c.password[key]`
unfoldable pub failures_of : AccessKey → AccessControl → PasswordFailures
failures_of key c = failures_found key (find_where (λ f. same_key f.key key) c.password)

abbrev pub with_window : AccessKey → ℕ → ℕ → AccessControl → AccessControl
with_window key started count c = record c {
  download = record { key = key; started_at = started; count = count } ∷ c.download;
}

abbrev pub with_failures : AccessKey → ℕ → ℕ → AccessControl → AccessControl
with_failures key count til c = record c {
  password = record { key = key; count = count; locked_til = til } ∷ c.password;
}

-- What AllowDownload does for the window that it finds.
unfoldable pub allow_in :
    AccessKey → ℕ → Option DownloadWindow → AccessControl → Bool × AccessControl
allow_in key now none c = (true, with_window key now 1 c)
allow_in key now (some w) c =
    if leb download_rate_window (now - w.started_at)
    then (true, with_window key now 1 c)
    else if leb download_rate_limit w.count
    then (false, c)
    else (true, with_window key w.started_at (w.count + 1) c)

unfoldable pub allow_download : AccessKey → ℕ → AccessControl → Bool × AccessControl
unfolding allow_in
allow_download key now c = allow_in key now (window_of key c) c

-- `entry.lockedTil.After(now)`
unfoldable pub password_locked : AccessKey → ℕ → AccessControl → Bool
unfolding failures_of
password_locked key now c = ltb now (failures_of key c).locked_til

unfoldable pub record_password_failure : AccessKey → ℕ → AccessControl → AccessControl
unfolding failures_of
record_password_failure key now c =
    let entry = failures_of key c in
    if ltb now entry.locked_til
    then c
    else if leb password_failure_limit (entry.count + 1)
    then with_failures key 0 (now + password_lock_duration) c
    else with_failures key (entry.count + 1) entry.locked_til c

unfoldable pub clear_password_failures : AccessKey → AccessControl → AccessControl
clear_password_failures key c = record c {
  password = delete_where (λ f. same_key f.key key) c.password;
}

abbrev pub access_key : String → String → AccessKey
access_key token ip_hash = record { token = token; ip_hash = ip_hash }

-- Its methods never fail.
unfoldable pub in_memory : AccessController AccessControl
unfolding allow_download password_locked record_password_failure clear_password_failures
in_memory = record {
  allow_download = λ token ip now c.
      let (answer, d) = allow_download (access_key token ip) now c in (ok answer, d);
  password_locked = λ token ip now c. (ok (password_locked (access_key token ip) now c), c);
  record_password_failure =
      λ token ip now c. (ok tt, record_password_failure (access_key token ip) now c);
  clear_password_failures = λ token ip c. (ok tt, clear_password_failures (access_key token ip) c);
}
