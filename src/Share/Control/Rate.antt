-- ===== src/Share/Control/Rate.antt =====
-- How many downloads a visitor is allowed.
use cloud_box.Base.{
  ℕ, ◌+◌, ◌-◌, ◌≤◌, ◌<◌, ◌≡◌, refl, sym, ◌∙◌, subst, true, false, ◌&&◌, Option, none, some, List,
  [], ◌∷◌, All, All-map, arith, leb, str_eq, str_eq_refl, str_eq→eq, Bool-cases, inl, inr,
  if◌then◌else◌, and_left, and_right,
}
use Prim.Native.Nat.{min}
use cloud_box.Sql.{find_where}
use cloud_box.Share.Control.{
  AccessKey, same_key, AccessControl, DownloadWindow, window_of, with_window, allow_in,
  allow_download, download_rate_limit, download_rate_window,
}

-- A download that a visitor asks for.
pub record Request : Type 0 where
  pub key : AccessKey
  pub at : ℕ

unfoldable pub serve : AccessControl → List Request → AccessControl
unfolding allow_download
serve c [] = c
serve c (r ∷ rs) = serve (allow_download r.key r.at c).1 rs

-- How many of the requests of a visitor are allowed, and how many there are.
unfoldable pub allowed_to : AccessKey → AccessControl → List Request → ℕ
unfolding allow_download
allowed_to key c [] = 0
allowed_to key c (r ∷ rs) =
    (if same_key r.key key && (allow_download r.key r.at c).0 then 1 else 0)
    + allowed_to key (allow_download r.key r.at c).1 rs

abbrev pub requests_of : AccessKey → List Request → ℕ
requests_of key [] = 0
requests_of key (r ∷ rs) = (if same_key r.key key then 1 else 0) + requests_of key rs

abbrev pub Within : ℕ → Request → Type 0
Within t r = (t ≤ r.at) × (r.at < t + download_rate_window)

-- The visitor has no window, or one that is over at `t`.
abbrev pub Stale : AccessKey → ℕ → Option DownloadWindow → Type 0
Stale key t none = Unit {0}
Stale key t (some w) = w.started_at + download_rate_window ≤ t

pub same_key_refl : (k : AccessKey) → same_key k k ≡ true
same_key_refl k = rw (str_eq_refl k.token, str_eq_refl k.ip_hash) refl

pub same_key→eq : (a b : AccessKey) → same_key a b ≡ true → a ≡ b
same_key→eq a b e =
    let t =
      str_eq→eq a.token b.token
        (and_left (str_eq a.token b.token) (str_eq a.ip_hash b.ip_hash) e) in
    let i =
      str_eq→eq a.ip_hash b.ip_hash
        (and_right (str_eq a.token b.token) (str_eq a.ip_hash b.ip_hash) e) in
    rw (t, i) refl

-- The newest window is the one that is found.
found_new :
    (k key : AccessKey) (started count : ℕ) (c : AccessControl)
    → window_of key (with_window k started count c) ≡ (
        if same_key k key
        then some (record { key = k; started_at = started; count = count })
        else window_of key c)
unfolding find_where
found_new k key started count c = refl

-- A request of another visitor leaves the window alone.
other_in :
    (k key : AccessKey) (now : ℕ) (o : Option DownloadWindow) (c : AccessControl)
    → same_key k key ≡ false
    → window_of key (allow_in k now o c).1 ≡ window_of key c
unfolding allow_in
other_in k key now none c apart = rw (found_new k key now 1 c, apart) refl
other_in k key now (some w) c apart =
    elim (Bool-cases (leb download_rate_window (now - w.started_at))) [
      | inl e ↦ rw (e, found_new k key now 1 c, apart) refl
      | inr e ↦ elim (Bool-cases (leb download_rate_limit w.count)) [
        | inl f ↦ rw (e, f) refl
        | inr f ↦ rw (e, f, found_new k key w.started_at (w.count + 1) c, apart) refl
      ]
    ]

other_window :
    (key : AccessKey) (r : Request) (c : AccessControl)
    → same_key r.key key ≡ false
    → window_of key (allow_download r.key r.at c).1 ≡ window_of key c
unfolding allow_download
other_window key r c apart = other_in r.key key r.at (window_of r.key c) c apart

-- A request with no open window opens one.
opened :
    (key : AccessKey) (now t : ℕ) (c : AccessControl) (o : Option DownloadWindow)
    → Stale key t o
    → t ≤ now
    → allow_in key now o c ≡ (true, with_window key now 1 c)
unfolding allow_in
opened key now t c none stale l = refl
opened key now t c (some w) stale l =
    let over : leb download_rate_window (now - w.started_at) ≡ true = ground arith in rw over refl

-- While a window is open, what is left of its limit is allowed.
open_window :
    (key : AccessKey) (w : DownloadWindow) (c : AccessControl) (rs : List Request)
    → window_of key c ≡ some w
    → w.count ≤ download_rate_limit
    → All (λ r. r.at < w.started_at + download_rate_window) rs
    → allowed_to key c rs ≡ min (requests_of key rs) (download_rate_limit - w.count)
unfolding allowed_to allow_download allow_in
open_window key w c [] e l a = omega arith
open_window key w c (r ∷ rs) e l (a, later) = elim (Bool-cases (same_key r.key key)) [
  | inr apart ↦
      let ih =
        open_window key w (allow_download r.key r.at c).1 rs (other_window key r c apart ∙ e) l
          later in
      rw (apart, ih) (ground arith)
  | inl same ↦
      let k = same_key→eq r.key key same in
      let inside : leb download_rate_window (r.at - w.started_at) ≡ false = ground arith in
      elim (Bool-cases (leb download_rate_limit w.count)) [
        | inl full ↦
            let ih = open_window key w c rs e l later in
            rw (same, k, e, inside, full, ih) (ground arith)
        | inr free ↦
            let found = found_new key key w.started_at (w.count + 1) c in
            let mine = same_key_refl key in
            let below : w.count + 1 ≤ download_rate_limit = ground arith in
            let ih =
              open_window key (record { key = key; started_at = w.started_at; count = w.count + 1 })
                (with_window key w.started_at (w.count + 1) c) rs (rw (found, mine) refl) below
                later in
            rw (same, k, e, inside, free, ih) (ground arith)
      ]
]

-- A visitor who has no window that is still open is allowed just so many downloads within the length
-- of a window as the limit says, however the requests of other visitors come between: all that are
-- asked for, if those are no more than the limit, and else exactly the limit.
pub allowed_lem :
    (key : AccessKey) (t : ℕ) (c : AccessControl) (rs : List Request)
    → Stale key t (window_of key c)
    → All (Within t) rs
    → allowed_to key c rs ≡ min (requests_of key rs) download_rate_limit
unfolding allowed_to allow_download allow_in
allowed_lem key t c [] stale a = omega arith
allowed_lem key t c (r ∷ rs) stale (a, later) = elim (Bool-cases (same_key r.key key)) [
  | inr apart ↦
      let ih =
        allowed_lem key t (allow_download r.key r.at c).1 rs
          (subst (Stale key t) (sym (other_window key r c apart)) stale) later in
      rw (apart, ih) (ground arith)
  | inl same ↦
      let k = same_key→eq r.key key same in
      let ih =
        open_window key (record { key = key; started_at = r.at; count = 1 })
          (with_window key r.at 1 c) rs (rw (found_new key key r.at 1 c, same_key_refl key) refl)
          (omega arith)
          (All-map (Within t) (λ q. q.at < r.at + download_rate_window)
            (λ q w. omega (arith, w.1, a.0)) rs later) in
      rw (same, k, opened key r.at t c (window_of key c) stale a.0, ih) (ground arith)
]
