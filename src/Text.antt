-- ===== src/Text.antt =====
-- Go's `strings.TrimSpace`, which the services apply to names, types, hashes and identifiers, and
-- the `length(trim(x)) > 0` of the table definitions.
pub mod Laws
pub mod MediaType
use Prim.Native.Char.{Char, code}
use Prim.Native.String.{[], ◌∷◌}
use cloud_box.Base.{ℕ, String, Bool, true, false, ◌&&◌, ◌||◌, leb, ◌==◌, if◌then◌else◌}

-- `unicode.IsSpace`
unfoldable pub is_space : ℕ → Bool
is_space c =
    (leb 9 c && leb c 13)
    || c == 32
    || c == 0x85
    || c == 0xa0
    || c == 0x1680
    || (leb 0x2000 c && leb c 0x200a)
    || c == 0x2028
    || c == 0x2029
    || c == 0x202f
    || c == 0x205f
    || c == 0x3000

abbrev pub is_empty : String → Bool
is_empty [] = true
is_empty (c ∷ s) = false

unfoldable pub trim_left : String → String
trim_left [] = []
trim_left (c ∷ s) = if is_space (code c) then trim_left s else c ∷ s

unfoldable pub trim_right_step : Char → String → String
trim_right_step c [] = if is_space (code c) then [] else c ∷ []
trim_right_step c (d ∷ s) = c ∷ d ∷ s

unfoldable pub trim_right : String → String
unfolding trim_right_step
trim_right [] = []
trim_right (c ∷ s) = trim_right_step c (trim_right s)

unfoldable pub trim_space : String → String
unfolding trim_left trim_right is_space
trim_space s = trim_right (trim_left s)

-- SQL's `length(trim(x)) = 0`: nothing but blanks.
unfoldable pub is_blank : String → Bool
is_blank [] = true
is_blank (c ∷ s) = code c == 32 && is_blank s
