-- ===== src/Common/Lists.antt =====
-- Lists measured and indexed by native numbers, under the library's names, and maps and sets of
-- the source as lists.
use Prim.Native.Nat.{ℕ, zero, suc, ◌+◌}
use mathlib.Core.Path.{◌≡◌, refl, ap}
use mathlib.Core.Logic.{◌↔◌, ◌≢◌, inl, inr}
use mathlib.Core.List.{List, [], ◌∷◌, ◌++◌, map}
use mathlib.Core.Option.{Option, none, some}
use mathlib.Core.Bool.{Bool, true, false, ◌||◌}
use native.Mathlib.Omega.{arith}
use singbox_deploy.Common.Tests.{Comparable, ◌==◌, if◌then◌else◌, Bool-cases}

module _ {ℓ} {A : Type ℓ} where
  abbrev pub length : List A → ℕ
  length [] = 0
  length (x ∷ xs) = suc (length xs)

  abbrev pub get_elem? : List A → ℕ → Option A
  get_elem? [] i = none
  get_elem? (x ∷ xs) zero = some x
  get_elem? (x ∷ xs) (suc i) = get_elem? xs i

  -- `list[i] = v`
  abbrev pub set : List A → ℕ → A → List A
  set [] i v = []
  set (x ∷ xs) zero v = v ∷ xs
  set (x ∷ xs) (suc i) v = x ∷ set xs i v

  -- `append(list[:i], list[i+1:]...)`
  abbrev pub remove_at : List A → ℕ → List A
  remove_at [] i = []
  remove_at (x ∷ xs) zero = xs
  remove_at (x ∷ xs) (suc i) = x ∷ remove_at xs i

  -- A loop that appends the elements that pass a test to a fresh slice.
  unfoldable pub select : (A → Bool) → List A → List A
  select p [] = []
  select p (x ∷ xs) = let rest = select p xs in if p x then x ∷ rest else rest

  -- A loop that returns the index of the first element that passes a test; `i` is its counter.
  unfoldable pub index_from : (A → Bool) → ℕ → List A → Option ℕ
  index_from p i [] = none
  index_from p i (x ∷ xs) = let rest = index_from p (suc i) xs in if p x then some i else rest

  pub length-append : (xs ys : List A) → length (xs ++ ys) ≡ length xs + length ys
  length-append [] ys = omega arith
  length-append (x ∷ xs) ys = omega (arith, length-append xs ys)

module _ {ℓ κ} {A : Type ℓ} where
  abbrev pub All : (A → Type κ) → List A → Type κ
  All P [] = Unit
  All P (x ∷ xs) = P x × All P xs

  pub All-append : (Q : A → Type κ) (l m : List A) → All Q l → All Q m → All Q (l ++ m)
  All-append Q [] m left right = right
  All-append Q (a ∷ l) m left right = (left.0, All-append Q l m left.1 right)

  pub All-set : (P : A → Type κ) (xs : List A) (k : ℕ) (v : A) → All P xs → P v → All P (set xs k v)
  All-set P [] k v h hv = tt
  All-set P (x ∷ xs) zero v h hv = (hv, h.1)
  All-set P (x ∷ xs) (suc k) v h hv = (h.0, All-set P xs k v h.1 hv)

  pub All-remove_at : (P : A → Type κ) (xs : List A) (k : ℕ) → All P xs → All P (remove_at xs k)
  All-remove_at P [] k h = tt
  All-remove_at P (x ∷ xs) zero h = h.1
  All-remove_at P (x ∷ xs) (suc k) h = (h.0, All-remove_at P xs k h.1)

  pub All-select : (P : A → Type κ) (p : A → Bool) (xs : List A) → All P xs → All P (select p xs)
  unfolding select
  All-select P p [] h = tt
  All-select P p (x ∷ xs) h = elim (Bool-cases (p x)) [
    | inl e ↦ rw e (h.0, All-select P p xs h.1)
    | inr e ↦ rw e (All-select P p xs h.1)
  ]

pub All-map {ℓ κ μ} :
    {A : Type ℓ} (P : A → Type κ) (Q : A → Type μ)
    → ((a : A) → P a → Q a)
    → (xs : List A) → All P xs
    → All Q xs
All-map P Q f [] h = tt
All-map P Q f (x ∷ xs) h = (f x h.0, All-map P Q f xs h.1)

module _ {ℓ} {A : Type ℓ} where
  pub All-select_self : (p : A → Bool) (xs : List A) → All (λ x. p x ≡ true) (select p xs)
  unfolding select
  All-select_self p [] = tt
  All-select_self p (x ∷ xs) = elim (Bool-cases (p x)) [
    | inl e ↦ rw (e, select) (e, All-select_self p xs)
    | inr e ↦ rw e (All-select_self p xs)
  ]

-- A Go map that is used as a set.
module _ {ℓ} {A : Type ℓ} ⦃e : Comparable A⦄ where
  unfoldable pub contains : List A → A → Bool
  contains [] key = false
  contains (k ∷ keys) key = k == key || contains keys key

  pub not-contains_iff : (xs : List A) (a : A) → (contains xs a ≡ false) ↔ All (λ x. x ≢ a) xs
  unfolding contains
  not-contains_iff [] a = (λ h. tt, λ h. refl)
  not-contains_iff (x ∷ xs) a = ground (arith, e.same_iff x a, not-contains_iff xs a)

module _ {ℓ} {A : Type ℓ} where
  abbrev pub replicate : ℕ → A → List A
  replicate zero a = []
  replicate (suc n) a = a ∷ replicate n a

pub length-map {ℓ κ} :
    {A : Type ℓ} {B : Type κ} (xs : List A) (f : A → B) → length (map f xs) ≡ length xs
length-map [] f = refl
length-map (x ∷ xs) f = ap suc (length-map xs f)

pub map-map {ℓ κ μ} :
    {A : Type ℓ} {B : Type κ} {C : Type μ} (f : A → B) (g : B → C) (xs : List A)
    → map g (map f xs) ≡ map (λ x. g (f x)) xs
map-map f g [] = refl
map-map f g (x ∷ xs) = ap (◌∷◌ (g (f x))) (map-map f g xs)

-- A map that changes no element of a list changes nothing.
pub map_id_of_All {ℓ} :
    {A : Type ℓ} (f : A → A) (xs : List A) → All (λ x. f x ≡ x) xs → map f xs ≡ xs
map_id_of_All f [] h = refl
map_id_of_All f (x ∷ xs) h = λ i. h.0 i ∷ map_id_of_All f xs h.1 i

module _ {ℓ κ} {A : Type ℓ} where
  pub All-zip :
      (P Q R : A → Type κ)
      → ((a : A) → P a → Q a → R a)
      → (xs : List A) → All P xs
      → All Q xs
      → All R xs
  All-zip P Q R f [] p q = tt
  All-zip P Q R f (x ∷ xs) p q = (f x p.0 q.0, All-zip P Q R f xs p.1 q.1)

  pub All-of_All : (P : A → Type κ) → ((a : A) → P a) → (xs : List A) → All P xs
  All-of_All P f [] = tt
  All-of_All P f (x ∷ xs) = (f x, All-of_All P f xs)

-- The order of two quantifiers over lists does not matter.
pub All-swap {ℓ κ μ} :
    {A : Type ℓ} {B : Type κ} (R : A → B → Type μ) (xs : List A) (ys : List B)
    → All (λ x. All (R x) ys) xs
    → All (λ y. All (λ x. R x y) xs) ys
All-swap R [] ys h = All-of_All (λ y. Unit) (λ y. tt) ys
All-swap R (x ∷ xs) ys h =
    All-zip (R x) (λ y. All (λ z. R z y) xs) (λ y. R x y × All (λ z. R z y) xs) (λ y p q. (p, q)) ys
      h.0 (All-swap R xs ys h.1)

module _ {ℓ κ} {A : Type ℓ} (P : A → Type κ) where
  pub All-append_split : (xs ys : List A) → All P (xs ++ ys) → All P xs × All P ys
  All-append_split [] ys h = (tt, h)
  All-append_split (x ∷ xs) ys h = let (a, b) = All-append_split xs ys h.1 in ((h.0, a), b)

  -- What holds of the elements that a test selects, and of all others.
  pub All-of_select :
      (p : A → Bool) (xs : List A) → All P (select p xs) → ((x : A) → p x ≡ false → P x) → All P xs
  unfolding select
  All-of_select p [] h other = tt
  All-of_select p (x ∷ xs) h other = elim (Bool-cases (p x)) [
    | inl e ↦ let h' = rw (e, select) at h in (h'.0, All-of_select p xs h'.1 other)
    | inr e ↦ (other x e, All-of_select p xs (rw (e, select) at h) other)
  ]

pub map-append {ℓ κ} :
    {A : Type ℓ} {B : Type κ} (f : A → B) (xs ys : List A) → map f (xs ++ ys) ≡ map f xs ++ map f ys
map-append f [] ys = refl
map-append f (x ∷ xs) ys = ap (◌∷◌ (f x)) (map-append f xs ys)

pub All-of_map {ℓ κ μ} :
    {A : Type ℓ} {B : Type κ} (f : A → B) (P : B → Type μ) (xs : List A)
    → All P (map f xs)
    → All (λ x. P (f x)) xs
All-of_map f P [] h = tt
All-of_map f P (x ∷ xs) h = (h.0, All-of_map f P xs h.1)
