-- ===== src/Common/Find.antt =====
-- The entry that a search by index finds, and how it changes with one entry of the list.
use Prim.Native.Nat.{ℕ, zero, suc, ◌+◌}
use mathlib.Core.Path.{◌≡◌, refl, sym}
use mathlib.Core.Logic.{inl, inr}
use mathlib.Core.List.{List, [], ◌∷◌, ◌++◌}
use mathlib.Core.Option.{Option, none, some}
use mathlib.Core.Bool.{Bool, true, false}
use native.Mathlib.Omega.{arith}
use singbox_deploy.Common.Tests.{if◌then◌else◌, Bool-cases, Option-cases}
use singbox_deploy.Common.Others.{AllPairs}
use singbox_deploy.Common.Lists.{All, All-map, select, get_elem?, set, remove_at, index_from}

module _ {ℓ} {A : Type ℓ} where
  -- `list[i]`, where there is an index.
  abbrev pub at_index : List A → Option ℕ → Option A
  at_index xs none = none
  at_index xs (some i) = get_elem? xs i

  -- The first element that passes a test.
  unfoldable pub find? : (A → Bool) → List A → Option A
  find? p [] = none
  find? p (x ∷ xs) = let rest = find? p xs in if p x then some x else rest

module _ {ℓ} {A : Type ℓ} (p : A → Bool) where
  pub find?-of-index_from-none :
      (i : ℕ) (xs : List A) → index_from p i xs ≡ none → find? p xs ≡ none
  unfolding find? index_from
  find?-of-index_from-none i [] h = refl
  find?-of-index_from-none i (x ∷ xs) h = ground (arith, find?-of-index_from-none (suc i) xs)

  pub index_from-some :
      (i : ℕ) (xs : List A) {k : ℕ}
      → index_from p i xs ≡ some k
      → (j : ℕ) × (x : A) × (k ≡ i + j)
        × (get_elem? xs j ≡ some x)
        × (p x ≡ true)
        × (find? p xs ≡ some x)
  unfolding find? index_from
  index_from-some i [] h = absurd (ground arith)
  index_from-some i (x ∷ xs) {k} h = elim (Bool-cases (p x)) [
    | inl e ↦ (0, x, ground arith, refl, e, ground arith)
    | inr e ↦
        let (j, y, at, got, holds, found) = index_from-some (suc i) xs {k = k} (ground arith) in
        (suc j, y, omega arith, got, holds, ground arith)
  ]

  -- A search by index and a read find what `find?` finds.
  pub at_index-index_from : (xs : List A) → at_index xs (index_from p 0 xs) ≡ find? p xs
  at_index-index_from xs = elim (Option-cases (index_from p 0 xs)) [
    | inl e ↦ rw e (sym (find?-of-index_from-none 0 xs e))
    | inr (k, e) ↦
        let (j, y, at, got, holds, found) = index_from-some 0 xs {k = k} e in rw e (ground arith)
  ]

  pub find?-set_self :
      (i j : ℕ) (xs : List A) (v : A) {k : ℕ}
      → index_from p i xs ≡ some k
      → k ≡ i + j
      → p v ≡ true
      → find? p (set xs j v) ≡ some v
  unfolding find? index_from
  find?-set_self i j [] v h e hv = absurd (ground arith)
  find?-set_self i zero (x ∷ xs) v h e hv = ground arith
  find?-set_self i (suc j) (x ∷ xs) v {k} h e hv = elim (Bool-cases (p x)) [
    | inl c ↦ absurd (ground arith)
    | inr c ↦ rw c (find?-set_self (suc i) j xs v {k = k} (ground arith) (omega arith) hv)
  ]

  pub find?-set_ne :
      (j : ℕ) (xs : List A) (v : A) {x : A}
      → get_elem? xs j ≡ some x
      → p x ≡ false
      → p v ≡ false
      → find? p (set xs j v) ≡ find? p xs
  unfolding find?
  find?-set_ne j [] v g hx hv = refl
  find?-set_ne zero (y ∷ xs) v g hx hv = ground arith
  find?-set_ne (suc j) (y ∷ xs) v g hx hv = ground (arith, find?-set_ne j xs v g hx hv)

  pub find?-append : (xs : List A) (v : A) → p v ≡ false → find? p (xs ++ v ∷ []) ≡ find? p xs
  unfolding find?
  find?-append [] v hv = rw hv
  find?-append (x ∷ xs) v hv = ground (arith, find?-append xs v hv)

  pub find?-append_self :
      (xs : List A) (v : A) → find? p xs ≡ none → p v ≡ true → find? p (xs ++ v ∷ []) ≡ some v
  unfolding find?
  find?-append_self [] v h hv = rw hv
  find?-append_self (x ∷ xs) v h hv = ground (arith, find?-append_self xs v)

  pub find?-none_of_All : (xs : List A) → All (λ x. p x ≡ false) xs → find? p xs ≡ none
  unfolding find?
  find?-none_of_All [] h = refl
  find?-none_of_All (x ∷ xs) h = ground (arith, find?-none_of_All xs h.1)

  pub All-of_find?-none : (xs : List A) → find? p xs ≡ none → All (λ x. p x ≡ false) xs
  unfolding find?
  All-of_find?-none [] h = tt
  All-of_find?-none (x ∷ xs) h = ground (arith, All-of_find?-none xs)

  pub find?-remove_at_ne :
      (j : ℕ) (xs : List A) {x : A}
      → get_elem? xs j ≡ some x
      → p x ≡ false
      → find? p (remove_at xs j) ≡ find? p xs
  unfolding find?
  find?-remove_at_ne j [] g hx = refl
  find?-remove_at_ne zero (y ∷ xs) g hx = ground arith
  find?-remove_at_ne (suc j) (y ∷ xs) g hx = ground (arith, find?-remove_at_ne j xs g hx)

  pub index_from-none_of_All :
      (i : ℕ) (xs : List A) → All (λ x. p x ≡ false) xs → index_from p i xs ≡ none
  unfolding index_from
  index_from-none_of_All i [] h = refl
  index_from-none_of_All i (x ∷ xs) h = ground (arith, index_from-none_of_All (suc i) xs h.1)

  pub select_none_of_All : (xs : List A) → All (λ x. p x ≡ false) xs → select p xs ≡ []
  unfolding select
  select_none_of_All [] h = refl
  select_none_of_All (x ∷ xs) h = ground (arith, select_none_of_All xs h.1)

  pub find?-remove_at_unique :
      (j : ℕ) (xs : List A) {x : A}
      → get_elem? xs j ≡ some x
      → p x ≡ true
      → AllPairs (λ a b. p a ≡ true → p b ≡ false) xs
      → find? p (remove_at xs j) ≡ none
  unfolding find?
  find?-remove_at_unique j [] g hx h = absurd (ground arith)
  find?-remove_at_unique zero (y ∷ xs) {x} g hx h =
      find?-none_of_All xs (
        All-map (λ b. p y ≡ true → p b ≡ false) (λ b. p b ≡ false) (λ b f. f (ground arith)) xs h.0)
  find?-remove_at_unique (suc j) (y ∷ xs) {x} g hx h = elim (Bool-cases (p y)) [
    | inl e ↦ absurd (never xs j g hx (All-map _ (λ b. p b ≡ false) (λ b f. f e) xs h.0))
    | inr e ↦ rw e (find?-remove_at_unique j xs {x = x} g hx h.1)
  ]
    where
      never :
          (ys : List A) (k : ℕ) {z : A}
          → get_elem? ys k ≡ some z
          → p z ≡ true
          → All (λ b. p b ≡ false) ys
          → ⊥
      never [] k g' hz a = ground arith
      never (b ∷ ys) zero g' hz a = ground arith
      never (b ∷ ys) (suc k) g' hz a = never ys k g' hz a.1
