-- ===== src/Common/Claims.antt =====
-- The loops that keep what they have seen and refuse to see it again, and what they accept.
use mathlib.Core.Logic.{◌↔◌, ◌≢◌}
use mathlib.Core.List.{List, [], ◌∷◌, ◌++◌, map}
use singbox_deploy.Common.Lists.{All, All-map, All-zip, All-of_All, All-of_map}
use singbox_deploy.Common.Others.{AllPairs}

module _ {ℓ} {A : Type ℓ} where
  -- Each element is new with respect to those before it and to what was there.
  abbrev pub AllNew : List A → List A → Type ℓ
  AllNew claimed [] = Unit
  AllNew claimed (x ∷ xs) = All (λ c. c ≢ x) claimed × AllNew (x ∷ claimed) xs

  -- What was seen when the loop ends.
  abbrev pub gather : List A → List A → List A
  gather claimed [] = claimed
  gather claimed (x ∷ xs) = gather (x ∷ claimed) xs

  pub AllNew-append :
      (claimed xs ys : List A)
      → AllNew claimed (xs ++ ys) ↔ (AllNew claimed xs × AllNew (gather claimed xs) ys)
  AllNew-append claimed [] ys = (λ h. (tt, h), λ h. h.1)
  AllNew-append claimed (x ∷ xs) ys =
      let ih = AllNew-append (x ∷ claimed) xs ys in
      (λ h. let r = ih.0 h.1 in ((h.0, r.0), r.1), λ h. (h.0.0, ih.1 (h.0.1, h.1)))

  -- No two elements are equal, and none is among those of `claimed`.
  pub AllNew-iff :
      (claimed xs : List A)
      → AllNew claimed xs ↔ (AllPairs (λ a b. a ≢ b) xs × All (λ x. All (λ c. c ≢ x) claimed) xs)
  AllNew-iff claimed [] = (λ h. (tt, tt), λ h. tt)
  AllNew-iff claimed (x ∷ xs) =
      let ih = AllNew-iff (x ∷ claimed) xs in
      (
        λ h.
            let r = ih.0 h.1 in
            (
              (All-map (λ y. All (λ c. c ≢ y) (x ∷ claimed)) (λ y. x ≢ y) (λ y o. o.0) xs r.1, r.0),
              (
                h.0,
                All-map (λ y. All (λ c. c ≢ y) (x ∷ claimed)) (λ y. All (λ c. c ≢ y) claimed)
                    (λ y o. o.1) xs r.1,
              ),
            ),
        λ h. (
          h.1.0,
          ih.1 (
            h.0.1,
            All-zip (λ y. x ≢ y) (λ y. All (λ c. c ≢ y) claimed)
                (λ y. All (λ c. c ≢ y) (x ∷ claimed)) (λ y a o. (a, o)) xs h.0.0 h.1.1,
          ),
        ),
      )

  pub AllNew-of_none : (xs : List A) → AllNew [] xs ↔ AllPairs (λ a b. a ≢ b) xs
  AllNew-of_none xs = (
    λ h. ((AllNew-iff [] xs).0 h).0,
    λ h. (AllNew-iff [] xs).1 (h, All-of_All (λ x. All (λ c. c ≢ x) []) (λ x. tt) xs),
  )

pub AllPairs-of_map {ℓ κ μ} :
    {A : Type ℓ} {B : Type κ} (f : A → B) (R : B → B → Type μ) (xs : List A)
    → AllPairs R (map f xs)
    → AllPairs (λ a b. R (f a) (f b)) xs
AllPairs-of_map f R [] h = tt
AllPairs-of_map f R (x ∷ xs) h = (All-of_map f (R (f x)) xs h.0, AllPairs-of_map f R xs h.1)
