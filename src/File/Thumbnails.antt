-- ===== src/File/Thumbnails.antt =====
-- The dimensions of a preview in internal/file/thumbnail.go.
use cloud_box.Base.{ℕ, suc, ◌*◌, ◌/◌, ◌≤◌, ◌<◌, ◌&&◌, arith, inl, inr, Bool-cases, leb}
use native.Mathlib.Nat.{div-lt_iff_lt-mul, mul-le-mul_right, mul_comm}
use cloud_box.File.Service.Scan.{thumbnail_dimensions, at_least_one}

-- A part of `max` in the ratio of a shorter side to a longer one is at most `max`.
scaled_le : (shorter longer max : ℕ) → 1 ≤ longer → shorter ≤ longer → shorter * max / longer ≤ max
scaled_le shorter longer max positive le =
    let more : shorter * max < suc max * longer =
      omega (arith, mul-le-mul_right max le, mul_comm longer max, positive) in
    omega (arith, (div-lt_iff_lt-mul positive).1 more)

at_least_one_le : (n max : ℕ) → 1 ≤ max → n ≤ max → (1 ≤ at_least_one n) × (at_least_one n ≤ max)
at_least_one_le n max positive le = ground arith

-- A side of a preview.
abbrev pub IsSide : ℕ → ℕ → Type 0
IsSide max n = (1 ≤ n) × (n ≤ max)

-- Both sides of a preview are at least 1 and at most the limit, if those of
-- the picture and the limit are not 0.
pub thumbnail_dimensions-IsSide :
    (width height max : ℕ)
    → 1 ≤ width
    → 1 ≤ height
    → 1 ≤ max
    → IsSide max (thumbnail_dimensions width height max).0
      × IsSide max (thumbnail_dimensions width height max).1
unfolding thumbnail_dimensions
thumbnail_dimensions-IsSide width height max w h m =
    elim (Bool-cases (leb width max && leb height max)) [
      | inl t ↦ rw t ((w, ground arith), (h, ground arith))
      | inr t ↦ elim (Bool-cases (leb height width)) [
        | inl u ↦
            rw (t, u)
              (
                (m, omega arith),
                at_least_one_le _ max m (scaled_le height width max w (ground arith)),
              )
        | inr u ↦
            rw (t, u)
              (
                at_least_one_le _ max m (scaled_le width height max h (ground arith)),
                (m, omega arith),
              )
      ]
    ]
