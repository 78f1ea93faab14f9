-- ===== src/Text/Laws.antt =====
-- What trimming does: the result neither begins nor ends with white space, and trimming again
-- changes nothing.
use Prim.Native.Char.{Char, code}
use Prim.Native.String.{[], ◌∷◌}
use cloud_box.Base.{String, ◌≡◌, refl, ap, ◌∙◌, false, arith, inl, inr, Bool-cases}
use cloud_box.Text.{
  is_space, is_empty, trim_left, trim_right, trim_right_step, trim_space, is_blank,
}

-- The first character, if there is one, is no white space.
abbrev pub StartsClean : String → Type 0
StartsClean [] = Unit {0}
StartsClean (c ∷ s) = is_space (code c) ≡ false

trim_left-StartsClean : (s : String) → StartsClean (trim_left s)
unfolding trim_left
trim_left-StartsClean [] = tt
trim_left-StartsClean (c ∷ s) = ground (arith, trim_left-StartsClean s)

trim_left-clean : (s : String) → StartsClean s → trim_left s ≡ s
unfolding trim_left
trim_left-clean [] h = refl
trim_left-clean (c ∷ s) h = ground arith

trim_right_step-StartsClean :
    (c : Char) (s : String) → is_space (code c) ≡ false → StartsClean (trim_right_step c s)
unfolding trim_right_step
trim_right_step-StartsClean c [] h = ground arith
trim_right_step-StartsClean c (d ∷ s) h = h

trim_right-StartsClean : (s : String) → StartsClean s → StartsClean (trim_right s)
unfolding trim_right
trim_right-StartsClean [] h = tt
trim_right-StartsClean (c ∷ s) h = trim_right_step-StartsClean c (trim_right s) h

trim_right_step_idem :
    (c : Char) (s : String)
    → trim_right s ≡ s
    → trim_right (trim_right_step c s) ≡ trim_right_step c s
unfolding trim_right
trim_right_step_idem c [] h = elim (Bool-cases (is_space (code c))) [
  | inl e ↦ rw e refl
  | inr e ↦ rw (e, e)
]
trim_right_step_idem c (d ∷ s) h = cc (h)

trim_right_idem : (s : String) → trim_right (trim_right s) ≡ trim_right s
unfolding trim_right
trim_right_idem [] = refl
trim_right_idem (c ∷ s) = trim_right_step_idem c (trim_right s) (trim_right_idem s)

pub trim_space-StartsClean : (s : String) → StartsClean (trim_space s)
unfolding trim_space
trim_space-StartsClean s = trim_right-StartsClean (trim_left s) (trim_left-StartsClean s)

pub trim_space_idem : (s : String) → trim_space (trim_space s) ≡ trim_space s
unfolding trim_space
trim_space_idem s =
    ap trim_right (trim_left-clean _ (trim_space-StartsClean s)) ∙ trim_right_idem (trim_left s)

-- A text that starts clean and is not empty passes the test of the tables.
pub StartsClean-is_blank : (s : String) → StartsClean s → is_empty s ≡ false → is_blank s ≡ false
unfolding is_blank is_space
StartsClean-is_blank [] h e = cc
StartsClean-is_blank (c ∷ s) h e = ground arith
