-- ===== src/Text/MediaType.antt =====
-- The tests of internal/file/service.go and thumbnail.go on a content type, by `strings.ToLower`. Three
-- kinds of letters have an ASCII letter as their lower case: the ASCII capitals, U+0130 and U+212A, so
-- that a comparison with an ASCII text needs no other.
use Prim.Native.Char.{code}
use Prim.Native.String.{[], ◌∷◌}
use cloud_box.Base.{ℕ, ◌+◌, String, Bool, true, false, ◌&&◌, ◌||◌, leb, ◌==◌, if◌then◌else◌}
use cloud_box.Text.{trim_space}

unfoldable pub lower_code : ℕ → ℕ
lower_code c =
    if leb 65 c && leb c 90
    then c + 32
    else if c == 0x130
    then 0x69
    else if c == 0x212a
    then 0x6b
    else c

-- `strings.ToLower(s) == word`, for an ASCII word
unfoldable pub lower_is : String → String → Bool
unfolding lower_code
lower_is [] [] = true
lower_is [] (d ∷ word) = false
lower_is (c ∷ s) [] = false
lower_is (c ∷ s) (d ∷ word) = lower_code (code c) == code d && lower_is s word

-- `strings.HasPrefix(strings.ToLower(s), word)`
unfoldable pub lower_has_prefix : String → String → Bool
unfolding lower_code
lower_has_prefix [] [] = true
lower_has_prefix [] (d ∷ word) = false
lower_has_prefix (c ∷ s) [] = true
lower_has_prefix (c ∷ s) (d ∷ word) = lower_code (code c) == code d && lower_has_prefix s word

abbrev pub is_image_type : String → Bool
is_image_type s =
    lower_is s "image/jpeg"
    || lower_is s "image/png"
    || lower_is s "image/webp"
    || lower_is s "image/gif"

-- SupportsInlinePreview
unfoldable pub supports_inline_preview : String → Bool
unfolding lower_is
supports_inline_preview content_type = is_image_type (trim_space content_type)

-- SupportsThumbnail
unfoldable pub supports_thumbnail : String → Bool
unfolding lower_is lower_has_prefix
supports_thumbnail content_type =
    let s = trim_space content_type in is_image_type s || lower_has_prefix s "video/"
