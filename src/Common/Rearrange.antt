-- ===== src/Common/Rearrange.antt =====
-- One list as a rearrangement of another, and what such lists share.
use Prim.Native.Nat.{suc}
use mathlib.Core.Path.{◌≡◌, refl, ap, ◌∙◌}
use mathlib.Core.Logic.{inl, inr}
use mathlib.Core.List.{List, [], ◌∷◌, ◌++◌, map}
use mathlib.Core.Bool.{Bool, true, ◌&&◌}
use native.Mathlib.Omega.{arith}
use singbox_deploy.Common.Tests.{Bool-cases}
use singbox_deploy.Common.Lists.{All, select, length}
use singbox_deploy.Common.Others.{AllPairs}

pub data Rearranged {ℓ} {A : Type ℓ} : List A → List A → Type ℓ where
  done : Rearranged [] []
  keep : (x : A) {xs ys : List A} → Rearranged xs ys → Rearranged (x ∷ xs) (x ∷ ys)
  swap : (x y : A) (xs : List A) → Rearranged (x ∷ y ∷ xs) (y ∷ x ∷ xs)
  follow : {xs ys zs : List A} → Rearranged xs ys → Rearranged ys zs → Rearranged xs zs

module _ {ℓ} {A : Type ℓ} where
  pub Rearranged-refl : (xs : List A) → Rearranged xs xs
  Rearranged-refl [] = Rearranged.done
  Rearranged-refl (x ∷ xs) = Rearranged.keep x (Rearranged-refl xs)

  -- An element in the middle comes to the front.
  pub Rearranged-middle :
      (xs : List A) (n : A) (ys : List A) → Rearranged (xs ++ n ∷ ys) (n ∷ (xs ++ ys))
  Rearranged-middle [] n ys = Rearranged-refl (n ∷ ys)
  Rearranged-middle (x ∷ xs) n ys =
      Rearranged.follow (Rearranged.keep x (Rearranged-middle xs n ys))
        (Rearranged.swap x n (xs ++ ys))

  pub Rearranged-append :
      (xs : List A) {ys zs : List A} → Rearranged ys zs → Rearranged (xs ++ ys) (xs ++ zs)
  Rearranged-append [] r = r
  Rearranged-append (x ∷ xs) r = Rearranged.keep x (Rearranged-append xs r)

  pub Rearranged-both :
      {ws xs ys zs : List A}
      → Rearranged ws xs
      → Rearranged ys zs
      → Rearranged (ws ++ ys) (xs ++ zs)
  Rearranged-both done s = s
  Rearranged-both (keep x r) s = Rearranged.keep x (Rearranged-both r s)
  Rearranged-both (swap x y xs) s =
      Rearranged.follow (Rearranged.swap x y (xs ++ _))
        (Rearranged.keep y (Rearranged.keep x (Rearranged-append xs s)))
  Rearranged-both {zs = zs} (follow r t) s =
      Rearranged.follow (Rearranged-both r s) (Rearranged-both t (Rearranged-refl zs))

  pub Rearranged-symm : {xs ys : List A} → Rearranged xs ys → Rearranged ys xs
  Rearranged-symm done = Rearranged.done
  Rearranged-symm (keep x r) = Rearranged.keep x (Rearranged-symm r)
  Rearranged-symm (swap x y xs) = Rearranged.swap y x xs
  Rearranged-symm (follow r s) = Rearranged.follow (Rearranged-symm s) (Rearranged-symm r)

  pub Rearranged-length : {xs ys : List A} → Rearranged xs ys → length xs ≡ length ys
  Rearranged-length done = refl
  Rearranged-length (keep x r) = ap suc (Rearranged-length r)
  Rearranged-length (swap x y xs) = refl
  Rearranged-length (follow r s) = Rearranged-length r ∙ Rearranged-length s

  pub select_of_All : (p : A → Bool) (xs : List A) → All (λ x. p x ≡ true) xs → select p xs ≡ xs
  unfolding select
  select_of_All p [] h = refl
  select_of_All p (x ∷ xs) h = ground (arith, select_of_All p xs h.1, h.0)

  pub select-select :
      (p q r : A → Bool) (xs : List A)
      → ((x : A) → (p x && q x) ≡ r x)
      → select p (select q xs) ≡ select r xs
  unfolding select
  select-select p q r [] h = refl
  select-select p q r (x ∷ xs) h = elim (Bool-cases (q x)) [
    | inl e ↦ ground (arith, select-select p q r xs h, h x, e)
    | inr e ↦ ground (arith, select-select p q r xs h, h x, e)
  ]

pub Rearranged-map {ℓ κ} :
    {A : Type ℓ} {B : Type κ} (f : A → B) {xs ys : List A}
    → Rearranged xs ys
    → Rearranged (map f xs) (map f ys)
Rearranged-map f done = Rearranged.done
Rearranged-map f (keep x r) = Rearranged.keep (f x) (Rearranged-map f r)
Rearranged-map f (swap x y xs) = Rearranged.swap (f x) (f y) (map f xs)
Rearranged-map f (follow r s) = Rearranged.follow (Rearranged-map f r) (Rearranged-map f s)

module _ {ℓ κ} {A : Type ℓ} where
  pub All-Rearranged : (P : A → Type κ) {xs ys : List A} → Rearranged xs ys → All P xs → All P ys
  All-Rearranged P done h = h
  All-Rearranged P (keep x r) h = (h.0, All-Rearranged P r h.1)
  All-Rearranged P (swap x y xs) h = (h.1.0, (h.0, h.1.1))
  All-Rearranged P (follow r s) h = All-Rearranged P s (All-Rearranged P r h)

  -- A symmetric relation of every two elements does not depend on their order.
  pub AllPairs-Rearranged :
      (R : A → A → Type κ) (flip : (a b : A) → R a b → R b a) {xs ys : List A}
      → Rearranged xs ys
      → AllPairs R xs
      → AllPairs R ys
  AllPairs-Rearranged R flip done h = h
  AllPairs-Rearranged R flip (keep x r) h =
      (All-Rearranged (R x) r h.0, AllPairs-Rearranged R flip r h.1)
  AllPairs-Rearranged R flip (swap x y xs) h = ((flip x y h.0.0, h.1.0), (h.0.1, h.1.1))
  AllPairs-Rearranged R flip (follow r s) h =
      AllPairs-Rearranged R flip s (AllPairs-Rearranged R flip r h)
