-- ===== src/Common/Others.antt =====
-- The loop `for i, existing := range list { if i == skip { continue } ... }` by which each registry
-- compares a candidate with its other entries, and what it means for the registry as a whole.
use Prim.Native.Nat.{ℕ, zero, suc, ◌+◌, ◌<◌}
use mathlib.Core.Path.{◌≡◌, refl}
use mathlib.Core.Logic.{◌↔◌, inl, inr}
use mathlib.Core.List.{List, [], ◌∷◌, ◌++◌}
use mathlib.Core.Option.{Option, none, some}
use mathlib.Core.Bool.{Bool, false}
use native.Mathlib.Omega.{arith}
use singbox_deploy.Common.Tests.{nat_beq, if◌then◌else◌, Bool-cases}
use singbox_deploy.Common.Lists.{
  get_elem?, All, All-map, All-zip, All-set, All-append, All-select, All-remove_at, set, remove_at,
  select,
}

-- `i == skip`, where no `skip` stands for -1.
abbrev pub is_skip : Option ℕ → ℕ → Bool
is_skip none i = false
is_skip (some k) i = nat_beq i k

module _ {ℓ} {A E : Type ℓ} where
  -- The first error that `check` finds, outside the index `skip`; `i` is the loop's counter.
  unfoldable pub check_others : (A → Option E) → Option ℕ → ℕ → List A → Option E
  check_others check skip i [] = none
  check_others check skip i (x ∷ xs) =
      let rest = check_others check skip (suc i) xs in
      if is_skip skip i then rest else elim (check x) [ none ↦ rest | some e ↦ some e ]

module _ {ℓ κ} {A : Type ℓ} where
  -- `P` holds at every index but `skip`.
  abbrev pub AllBut : (A → Type κ) → Option ℕ → ℕ → List A → Type κ
  AllBut P skip i [] = Unit
  AllBut P skip i (x ∷ xs) = (is_skip skip i ≡ false → P x) × AllBut P skip (suc i) xs

  pub AllBut-map :
      {Q : A → Type κ} (P : A → Type κ) (skip : Option ℕ) (i : ℕ) (xs : List A)
      → ((x : A) → P x → Q x)
      → AllBut P skip i xs
      → AllBut Q skip i xs
  AllBut-map P skip i [] f h = tt
  AllBut-map P skip i (x ∷ xs) f h = (λ e. f x (h.0 e), AllBut-map P skip (suc i) xs f h.1)

  pub All-of_AllBut-none : (P : A → Type κ) (i : ℕ) (xs : List A) → AllBut P none i xs → All P xs
  All-of_AllBut-none P i [] h = tt
  All-of_AllBut-none P i (x ∷ xs) h = (h.0 refl, All-of_AllBut-none P (suc i) xs h.1)

  pub AllBut-of_All :
      (P : A → Type κ) (skip : Option ℕ) (i : ℕ) (xs : List A) → All P xs → AllBut P skip i xs
  AllBut-of_All P skip i [] h = tt
  AllBut-of_All P skip i (x ∷ xs) h = (λ e. h.0, AllBut-of_All P skip (suc i) xs h.1)

  -- Behind the index that is left out.
  All-of_AllBut_past :
      (P : A → Type κ) (k i : ℕ) (xs : List A) → k < i → AllBut P (some k) i xs → All P xs
  All-of_AllBut_past P k i [] lt h = tt
  All-of_AllBut_past P k i (x ∷ xs) lt h =
      (h.0 (ground arith), All-of_AllBut_past P k (suc i) xs (omega arith) h.1)

  -- Every two entries, the earlier one first.
  abbrev pub AllPairs : (A → A → Type κ) → List A → Type (ℓ ⊔ κ)
  AllPairs R [] = Unit
  AllPairs R (x ∷ xs) = All (R x) xs × AllPairs R xs

module _ {ℓ κ} {A : Type ℓ} (R : A → A → Type κ) where
  pub AllPairs-append :
      (xs : List A) (v : A) → AllPairs R xs → All (λ x. R x v) xs → AllPairs R (xs ++ v ∷ [])
  AllPairs-append [] v h hv = (tt, tt)
  AllPairs-append (x ∷ xs) v h hv =
      (All-append (R x) xs (v ∷ []) h.0 (hv.0, tt), AllPairs-append xs v h.1 hv.1)

  pub AllPairs-select : (p : A → Bool) (xs : List A) → AllPairs R xs → AllPairs R (select p xs)
  unfolding select
  AllPairs-select p [] h = tt
  AllPairs-select p (x ∷ xs) h = elim (Bool-cases (p x)) [
    | inl e ↦ rw e (All-select (R x) p xs h.0, AllPairs-select p xs h.1)
    | inr e ↦ rw e (AllPairs-select p xs h.1)
  ]

  pub AllPairs-remove_at : (xs : List A) (k : ℕ) → AllPairs R xs → AllPairs R (remove_at xs k)
  AllPairs-remove_at [] k h = tt
  AllPairs-remove_at (x ∷ xs) zero h = h.1
  AllPairs-remove_at (x ∷ xs) (suc k) h =
      (All-remove_at (R x) xs k h.0, AllPairs-remove_at xs k h.1)

  -- A replacement that was compared with every entry but the one that it replaces.
  AllPairs-set_from :
      (flip : (a b : A) → R a b → R b a) (xs : List A) (v : A) (s k i : ℕ)
      → s ≡ i + k
      → AllPairs R xs
      → AllBut (λ x. R x v) (some s) i xs
      → AllPairs R (set xs k v)
  AllPairs-set_from flip [] v s k i e h hv = tt
  AllPairs-set_from flip (x ∷ xs) v s zero i e h hv =
      (All-flip xs (All-of_AllBut_past (λ x. R x v) s (suc i) xs (omega arith) hv.1), h.1)
    where
      All-flip : (ys : List A) → All (λ y. R y v) ys → All (R v) ys
      All-flip = elim [ [] ↦ λ h. tt | y ∷ (ys → ih) ↦ λ h. (flip y v h.0, ih h.1) ]
  AllPairs-set_from flip (x ∷ xs) v s (suc k) i e h hv = (
    All-set (R x) xs k v h.0 (hv.0 (ground arith)),
    AllPairs-set_from flip xs v s k (suc i) (omega arith) h.1 hv.1,
  )

  pub AllPairs-set :
      (flip : (a b : A) → R a b → R b a) (xs : List A) (k : ℕ) (v : A)
      → AllPairs R xs
      → AllBut (λ x. R x v) (some k) 0 xs
      → AllPairs R (set xs k v)
  AllPairs-set flip xs k v h hv = AllPairs-set_from flip xs v k k 0 (omega arith) h hv

module _ {ℓ} {A E : Type ℓ} (check : A → Option E) where
  -- The loop finds no error exactly when there is none outside `skip`.
  pub check_others_iff :
      (skip : Option ℕ) (i : ℕ) (xs : List A)
      → (check_others check skip i xs ≡ none) ↔ AllBut (λ x. check x ≡ none) skip i xs
  unfolding check_others
  check_others_iff skip i [] = (λ h. tt, λ h. refl)
  check_others_iff skip i (x ∷ xs) = ground (arith, check_others_iff skip (suc i) xs)

-- A relation of every two entries, in both directions, and of each entry to itself.
pub All-of_AllPairs {ℓ κ} :
    {A : Type ℓ} (R : A → A → Type κ) (xs : List A)
    → AllPairs (λ a b. R a b × R b a) xs
    → All (λ a. R a a) xs
    → All (λ x. All (R x) xs) xs
All-of_AllPairs R [] h own = tt
All-of_AllPairs R (x ∷ xs) h own = (
  (own.0, All-map (λ b. R x b × R b x) (R x) (λ b r. r.0) xs h.0),
  All-zip (λ b. R x b × R b x) (λ y. All (R y) xs) (λ y. R y x × All (R y) xs) (λ y r a. (r.1, a))
      xs h.0 (All-of_AllPairs R xs h.1 own.1),
)

pub AllPairs-map {ℓ κ μ} :
    {A : Type ℓ} (R : A → A → Type κ) (S : A → A → Type μ)
    → ((a b : A) → R a b → S a b)
    → (xs : List A) → AllPairs R xs
    → AllPairs S xs
AllPairs-map R S f [] h = tt
AllPairs-map R S f (x ∷ xs) h = (All-map (R x) (S x) (f x) xs h.0, AllPairs-map R S f xs h.1)

pub All-get_elem? {ℓ κ} :
    {A : Type ℓ} (P : A → Type κ) (xs : List A) (k : ℕ) (v : A)
    → All P xs
    → get_elem? xs k ≡ some v
    → P v
All-get_elem? P [] k v h at = absurd (ground arith)
All-get_elem? P (x ∷ xs) zero v h at = let same : x ≡ v = ground arith in rw (← same) h.0
All-get_elem? P (x ∷ xs) (suc k) v h at = All-get_elem? P xs k v h.1 at

module _ {ℓ κ} {A : Type ℓ} where
  pub AllBut-zip :
      (P Q S R : A → Type κ) (skip : Option ℕ) (i : ℕ) (xs : List A)
      → ((a : A) → P a → Q a → S a → R a)
      → AllBut P skip i xs
      → AllBut Q skip i xs
      → All S xs
      → AllBut R skip i xs
  AllBut-zip P Q S R skip i [] f p q s = tt
  AllBut-zip P Q S R skip i (x ∷ xs) f p q s =
      (λ e. f x (p.0 e) (q.0 e) s.0, AllBut-zip P Q S R skip (suc i) xs f p.1 q.1 s.1)

  -- What every two entries have, an entry has with all others.
  AllBut-of_AllPairs_from :
      (R : A → A → Type κ) (flip : (a b : A) → R a b → R b a) (xs : List A) (s k i : ℕ) (v : A)
      → s ≡ i + k
      → AllPairs R xs
      → get_elem? xs k ≡ some v
      → AllBut (λ x. R x v) (some s) i xs
  AllBut-of_AllPairs_from R flip [] s k i v e h at = tt
  AllBut-of_AllPairs_from R flip (x ∷ xs) s zero i v e h at =
      let same : x ≡ v = ground arith in
      (
        λ apart. absurd (ground arith),
        AllBut-of_All (λ y. R y v) (some s) (suc i) xs
            (All-map (R x) (λ y. R y v) (λ y r. flip v y (rw (← same) r)) xs h.0),
      )
  AllBut-of_AllPairs_from R flip (x ∷ xs) s (suc k) i v e h at = (
    λ apart. All-get_elem? (R x) xs k v h.0 at,
    AllBut-of_AllPairs_from R flip xs s k (suc i) v (omega arith) h.1 at,
  )

  pub AllBut-of_AllPairs :
      (R : A → A → Type κ) (flip : (a b : A) → R a b → R b a) (xs : List A) (k : ℕ) (v : A)
      → AllPairs R xs
      → get_elem? xs k ≡ some v
      → AllBut (λ x. R x v) (some k) 0 xs
  AllBut-of_AllPairs R flip xs k v h at =
      AllBut-of_AllPairs_from R flip xs k k 0 v (omega arith) h at
