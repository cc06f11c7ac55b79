-- ===== src/Common/Strings/Trim.antt =====
-- strings.TrimSpace, strings.ToLower, strings.EqualFold and the `normalize` of the registries.
use Prim.Native.Nat.{ℕ, ◌+◌}
use mathlib.Core.Path.{◌≡◌, refl, ap}
use mathlib.Core.Logic.{inl, inr}
use mathlib.Core.List.{[], ◌∷◌, ◌++◌, map}
use mathlib.Core.Bool.{Bool, false, ◌||◌, ◌&&◌}
use native.Mathlib.Omega.{arith}
use singbox_deploy.Common.Tests.{nat_beq, leb, if◌then◌else◌, Bool-cases, ◌==◌}
use singbox_deploy.Common.Lists.{All-map, map_id_of_All, All}
use singbox_deploy.Common.Strings.Defs.{Text, is_empty, text_eq}

-- unicode.IsSpace
unfoldable pub is_space : ℕ → Bool
is_space c =
    (leb 9 c && leb c 13)
    || nat_beq c 32
    || nat_beq c 0x85
    || nat_beq c 0xa0
    || nat_beq c 0x1680
    || (leb 0x2000 c && leb c 0x200a)
    || nat_beq c 0x2028
    || nat_beq c 0x2029
    || nat_beq c 0x202f
    || nat_beq c 0x205f
    || nat_beq c 0x3000

unfoldable pub trim_left : Text → Text
trim_left [] = []
trim_left (c ∷ s) = let rest = trim_left s in if is_space c then rest else c ∷ s

unfoldable pub trim_right : Text → Text
trim_right [] = []
trim_right (c ∷ s) = let rest = trim_right s in if is_space c && is_empty rest then [] else c ∷ rest

unfoldable pub trim_space : Text → Text
unfolding trim_left trim_right is_space
trim_space s = trim_right (trim_left s)

unfoldable pub lower_rune : ℕ → ℕ
lower_rune c = if leb b'A' c && leb c b'Z' then c + 32 else c

unfoldable pub to_lower : Text → Text
unfolding lower_rune
to_lower = map lower_rune

unfoldable pub equal_fold : Text → Text → Bool
unfolding to_lower
equal_fold a b = to_lower a == to_lower b

-- `func normalize(v string) string { return strings.ToLower(strings.TrimSpace(v)) }`
unfoldable pub normalize : Text → Text
unfolding to_lower trim_space
normalize v = to_lower (trim_space v)

trim_right_idem : (s : Text) → trim_right (trim_right s) ≡ trim_right s
unfolding trim_right
trim_right_idem [] = refl
trim_right_idem (c ∷ s) = ground (arith, trim_right_idem s)

-- Where a text begins with no space, neither trim touches its first character.
trim_left-trim_right : (s : Text) → trim_left (trim_right (trim_left s)) ≡ trim_right (trim_left s)
unfolding trim_left trim_right
trim_left-trim_right [] = refl
trim_left-trim_right (c ∷ s) = ground (arith, trim_left-trim_right s)

pub trim_space_idem : (s : Text) → trim_space (trim_space s) ≡ trim_space s
unfolding trim_space
trim_space_idem s = rw trim_left-trim_right (trim_right_idem (trim_left s))

is_space-lower_rune : (c : ℕ) → is_space (lower_rune c) ≡ is_space c
unfolding is_space lower_rune
is_space-lower_rune c = ground arith

is_empty-map : (f : ℕ → ℕ) (s : Text) → is_empty (map f s) ≡ is_empty s
is_empty-map f [] = refl
is_empty-map f (c ∷ s) = refl

trim_left-to_lower : (s : Text) → trim_left (map lower_rune s) ≡ map lower_rune (trim_left s)
unfolding trim_left
trim_left-to_lower [] = refl
trim_left-to_lower (c ∷ s) = ground (arith, is_space-lower_rune c, trim_left-to_lower s)

trim_right-to_lower : (s : Text) → trim_right (map lower_rune s) ≡ map lower_rune (trim_right s)
unfolding trim_right
trim_right-to_lower [] = refl
trim_right-to_lower (c ∷ s) =
    ground
      (arith, is_space-lower_rune c, trim_right-to_lower s, is_empty-map lower_rune (trim_right s))

lower_rune_idem : (c : ℕ) → lower_rune (lower_rune c) ≡ lower_rune c
unfolding lower_rune
lower_rune_idem c = ground arith

to_lower_idem : (s : Text) → map lower_rune (map lower_rune s) ≡ map lower_rune s
to_lower_idem [] = refl
to_lower_idem (c ∷ s) = ground (arith, lower_rune_idem c, to_lower_idem s)

-- What is normal stays as it is.
pub normalize_idem : (s : Text) → normalize (normalize s) ≡ normalize s
unfolding normalize
normalize_idem s =
    rw
      (
        trim_left-to_lower (trim_space s),
        trim_right-to_lower (trim_left (trim_space s)),
        to_lower_idem,
      )
      (ap (map lower_rune) (trim_space_idem s))

pub normalize-trim_space : (s : Text) → normalize (trim_space s) ≡ normalize s
unfolding normalize
normalize-trim_space s = ap (map lower_rune) (trim_space_idem s)

trim_right-newline : (s : Text) → trim_right (s ++ 10 ∷ []) ≡ trim_right s
unfolding trim_right is_space
trim_right-newline [] = refl
trim_right-newline (c ∷ s) = rw (trim_right-newline s)

-- The newline that ends a state file is trimmed away again.
pub trim_space-newline : (s : Text) → trim_space (s ++ 10 ∷ []) ≡ trim_space s
unfolding trim_space trim_left
trim_space-newline [] = refl
trim_space-newline (c ∷ s) = elim (Bool-cases (is_space c)) [
  | inl e ↦ rw e (trim_space-newline s)
  | inr e ↦ rw e (trim_right-newline (c ∷ s))
]

trim_left_of_All : (s : Text) → All (λ c. is_space c ≡ false) s → trim_left s ≡ s
unfolding trim_left
trim_left_of_All [] h = refl
trim_left_of_All (c ∷ s) h = rw h.0 refl

trim_right_of_All : (s : Text) → All (λ c. is_space c ≡ false) s → trim_right s ≡ s
unfolding trim_right
trim_right_of_All [] h = refl
trim_right_of_All (c ∷ s) h = rw (h.0, trim_right_of_All s h.1) refl

-- A text with no space in it is trimmed already.
pub trim_space_of_All : (s : Text) → All (λ c. is_space c ≡ false) s → trim_space s ≡ s
unfolding trim_space
trim_space_of_All s h = rw (trim_left_of_All s h) (trim_right_of_All s h)

pub trim_space-normalize : (s : Text) → trim_space (normalize s) ≡ normalize s
unfolding normalize
trim_space-normalize s =
    rw (trim_left-to_lower (trim_space s), trim_right-to_lower (trim_left (trim_space s)))
      (ap (map lower_rune) (trim_space_idem s))

-- Neither a space nor an upper-case letter.
abbrev pub IsLower : ℕ → Type 0
IsLower c = (is_space c ≡ false) × (lower_rune c ≡ c)

pub normalize_of_All : (s : Text) → All IsLower s → normalize s ≡ s
unfolding normalize
normalize_of_All s h =
    rw (trim_space_of_All s (All-map IsLower (λ c. is_space c ≡ false) (λ c l. l.0) s h))
      (map_id_of_All lower_rune s (All-map IsLower (λ c. lower_rune c ≡ c) (λ c l. l.1) s h))

-- A value that falls back to the empty text where it is empty.
pub or_empty : (s : Text) → (if is_empty s then [] else s) ≡ s
or_empty [] = refl
or_empty (c ∷ s) = refl
