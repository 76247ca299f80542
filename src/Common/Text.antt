-- ===== src/Common/Text.antt =====
-- Texts that the code walks: lists of code points, with `strings.TrimSpace`.
use Prim.Native.Nat.{ℕ}
use mathlib.Core.Path.{◌≡◌, refl, ap, ◌∙◌}
use mathlib.Core.Logic.{inl, inr}
use mathlib.Core.Bool.{Bool, true, false, not, ◌&&◌, ◌||◌}
use mathlib.Core.List.{List, [], ◌∷◌}
use go_service_template.Common.Tests.{leb, nat_beq, if◌then◌else◌, Bool-cases}

abbrev pub Text : Type 0
Text = List ℕ

-- unicode.IsSpace
unfoldable pub is_space : ℕ → Bool
is_space c =
    leb 9 c && leb c 13
    || nat_beq c 32
    || nat_beq c 133
    || nat_beq c 160
    || nat_beq c 5760
    || leb 8192 c && leb c 8202
    || nat_beq c 8232
    || nat_beq c 8233
    || nat_beq c 8239
    || nat_beq c 8287
    || nat_beq c 12288

abbrev pub is_empty {ℓ} : {A : Type ℓ} → List A → Bool
is_empty [] = true
is_empty (c ∷ s) = false

unfoldable pub trim_left : Text → Text
trim_left [] = []
trim_left (c ∷ s) = if is_space c then trim_left s else c ∷ s

unfoldable pub trim_right : Text → Text
trim_right [] = []
trim_right (c ∷ s) = let rest = trim_right s in if is_space c && is_empty rest then [] else c ∷ rest

-- strings.TrimSpace
unfoldable pub trim_space : Text → Text
unfolding trim_left trim_right is_space
trim_space s = trim_right (trim_left s)

-- The text is empty or its first character is no space.
abbrev is_trimmed : Text → Bool
is_trimmed [] = true
is_trimmed (c ∷ s) = not (is_space c)

trim_left-is_trimmed : (s : Text) → is_trimmed (trim_left s) ≡ true
unfolding trim_left
trim_left-is_trimmed [] = refl
trim_left-is_trimmed (c ∷ s) = elim (Bool-cases (is_space c)) [
  | inl e ↦ rw (e) (trim_left-is_trimmed s)
  | inr e ↦ rw (e, e)
]

trim_left_same : (s : Text) → is_trimmed s ≡ true → trim_left s ≡ s
unfolding trim_left
trim_left_same [] h = refl
trim_left_same (c ∷ s) h = elim (Bool-cases (is_space c)) [
  | inl e ↦ let z = rw (e) at h in cc
  | inr e ↦ rw (e)
]

trim_right-is_trimmed : (s : Text) → is_trimmed s ≡ true → is_trimmed (trim_right s) ≡ true
unfolding trim_right
trim_right-is_trimmed [] h = refl
trim_right-is_trimmed (c ∷ s) h = elim (Bool-cases (is_space c)) [
  | inl e ↦ let z = rw (e) at h in cc
  | inr e ↦ rw (e, e)
]

trim_right-trim_right : (s : Text) → trim_right (trim_right s) ≡ trim_right s
unfolding trim_right
trim_right-trim_right [] = refl
trim_right-trim_right (c ∷ s) = elim (Bool-cases (is_space c && is_empty (trim_right s))) [
  | inl e ↦ rw (e)
  | inr e ↦ rw (e, trim_right-trim_right s, e)
]

-- Text that has been trimmed stays as it is.
pub trim_space-trim_space : (s : Text) → trim_space (trim_space s) ≡ trim_space s
unfolding trim_space
trim_space-trim_space s =
    ap trim_right (
      trim_left_same (trim_right (trim_left s))
        (trim_right-is_trimmed (trim_left s) (trim_left-is_trimmed s)))
    ∙ trim_right-trim_right (trim_left s)
