-- ===== src/Common/Strings/Split.antt =====
-- strings.Split and strings.Join at a separator of one character.
use Prim.Native.Nat.{ℕ}
use mathlib.Core.Path.{◌≡◌, refl, ap, ◌∙◌}
use mathlib.Core.Logic.{◌≢◌}
use mathlib.Core.List.{List, [], ◌∷◌, ◌++◌}
use native.Mathlib.Omega.{arith}
use singbox_deploy.Common.Tests.{nat_beq, if◌then◌else◌}
use singbox_deploy.Common.Lists.{All, All-append}
use singbox_deploy.Common.Strings.Defs.{Text}

abbrev cons_head : ℕ → List Text → List Text
cons_head x [] = (x ∷ []) ∷ []
cons_head x (p ∷ ps) = (x ∷ p) ∷ ps

unfoldable pub split : ℕ → Text → List Text
split sep [] = [] ∷ []
split sep (x ∷ s) = let rest = split sep s in if nat_beq x sep then [] ∷ rest else cons_head x rest

unfoldable pub join : ℕ → List Text → Text
join sep [] = []
join sep (p ∷ []) = p
join sep (p ∷ q ∷ ps) = p ++ sep ∷ join sep (q ∷ ps)

-- The text does not hold the character.
abbrev pub Lacks : ℕ → Text → Type 0
Lacks c = All (λ x. x ≢ c)

pub split_of_Lacks : (sep : ℕ) (p : Text) → Lacks sep p → split sep p ≡ p ∷ []
unfolding split
split_of_Lacks sep [] h = refl
split_of_Lacks sep (x ∷ p) h = ground (arith, split_of_Lacks sep p h.1)

pub split-append : (sep : ℕ) (p s : Text) → Lacks sep p → split sep (p ++ sep ∷ s) ≡ p ∷ split sep s
unfolding split
split-append sep [] s h = ground arith
split-append sep (x ∷ p) s h = ground (arith, split-append sep p s h.1)

-- A list of at least one part that does not hold the separator comes back.
pub split-join :
    (sep : ℕ) (p : Text) (ps : List Text)
    → All (Lacks sep) (p ∷ ps)
    → split sep (join sep (p ∷ ps)) ≡ p ∷ ps
unfolding join
split-join sep p [] h = split_of_Lacks sep p h.0
split-join sep p (q ∷ ps) h =
    split-append sep p (join sep (q ∷ ps)) h.0 ∙ ap (◌∷◌ p) (split-join sep q ps h.1)

pub All-join {ℓ} :
    (P : ℕ → Type ℓ) (sep : ℕ) (ps : List Text) → P sep → All (All P) ps → All P (join sep ps)
unfolding join
All-join P sep [] s h = tt
All-join P sep (p ∷ []) s h = h.0
All-join P sep (p ∷ q ∷ ps) s h =
    All-append P p (sep ∷ join sep (q ∷ ps)) h.0 (s, All-join P sep (q ∷ ps) s h.1)
