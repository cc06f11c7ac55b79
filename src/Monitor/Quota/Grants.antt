-- ===== src/Monitor/Quota/Grants.antt =====
-- What a traffic package does to a limit.
use singbox_deploy.Common.{
  ℕ, ◌+◌, ◌≤◌, ◌<◌, ◌≡◌, ◌↔◌, refl, arith, true, false, Bool, ◌||◌, ◌⊎◌, inl, inr,
}
use Prim.Native.Nat.{min}
use singbox_deploy.Monitor.Quota.{
  TrafficLimits, TrafficPackage, TrafficTotals, u64_mod, max_u64, extend_limit, saturating_add,
  with_package, add_package, exceeded, limit_exceeded, total,
}

pub record IsLimits (l : TrafficLimits) : Type 0 where
  pub in_bytes : l.in_bytes < u64_mod
  pub out_bytes : l.out_bytes < u64_mod
  pub total_bytes : l.total_bytes < u64_mod

pub record IsPackage (p : TrafficPackage) : Type 0 where
  pub in_bytes : p.in_bytes < u64_mod
  pub out_bytes : p.out_bytes < u64_mod
  pub total_bytes : p.total_bytes < u64_mod

-- Neither operation wraps around: both stop at the largest word.
saturating_add-min :
    (a b : ℕ) → a < u64_mod → b < u64_mod → saturating_add a b ≡ min (a + b) max_u64
unfolding saturating_add
saturating_add-min a b ha hb = ground arith

extend_limit-saturating_add :
    (limit a b : ℕ)
    → limit < u64_mod
    → a < u64_mod
    → b < u64_mod
    → extend_limit (extend_limit limit a) b ≡ extend_limit limit (saturating_add a b)
unfolding extend_limit saturating_add
extend_limit-saturating_add limit a b hl ha hb = ground arith

-- Granting two packages one after the other extends the limits as granting their sum does, in
-- every direction, saturation and unlimited directions included.
pub with_package-add_package :
    (l : TrafficLimits) (p q : TrafficPackage)
    → IsLimits l
    → IsPackage p
    → IsPackage q
    → with_package (with_package l p) q ≡ with_package l (add_package p q)
unfolding with_package add_package
with_package-add_package l p q hl hp hq = λ i. record {
  in_bytes =
      extend_limit-saturating_add l.in_bytes p.in_bytes q.in_bytes hl.in_bytes hp.in_bytes
        hq.in_bytes i;
  out_bytes =
      extend_limit-saturating_add l.out_bytes p.out_bytes q.out_bytes hl.out_bytes hp.out_bytes
        hq.out_bytes i;
  total_bytes =
      extend_limit-saturating_add l.total_bytes p.total_bytes q.total_bytes hl.total_bytes
        hp.total_bytes hq.total_bytes i;
}

-- One direction is exceeded under a package exactly when it has a limit and the use reaches the
-- limit with the package on top, or the largest word if that is less.
limit_exceeded-extend_limit :
    (limit extra used : ℕ)
    → limit < u64_mod
    → extra < u64_mod
    → (limit_exceeded (extend_limit limit extra) used ≡ true)
      ↔ ((0 < limit) × (min (limit + extra) max_u64 ≤ used))
unfolding limit_exceeded extend_limit
limit_exceeded-extend_limit limit extra used hl he = ground arith

-- The use reaches what a limit comes to with a package on top of it.
abbrev pub Reached : ℕ → ℕ → ℕ → Type 0
Reached limit extra used = (0 < limit) × (min (limit + extra) max_u64 ≤ used)

exceeded_directions :
    (l : TrafficLimits) (p : TrafficPackage) (used : TrafficTotals)
    → exceeded (with_package l p) used ≡ (
        limit_exceeded (extend_limit l.in_bytes p.in_bytes) used.in_bytes
        || limit_exceeded (extend_limit l.out_bytes p.out_bytes) used.out_bytes
        || limit_exceeded (extend_limit l.total_bytes p.total_bytes) (total used))
unfolding exceeded with_package
exceeded_directions l p used = refl

or_iff :
    {P Q R : Type 0} (a b c : Bool)
    → (a ≡ true) ↔ P
    → (b ≡ true) ↔ Q
    → (c ≡ true) ↔ R
    → ((a || b || c) ≡ true) ↔ (P ⊎ (Q ⊎ R))
or_iff true b c p q r = (λ h. inl (p.0 refl), λ h. refl)
or_iff false true c p q r = (λ h. inr (inl (q.0 refl)), λ h. refl)
or_iff false false c p q r = (
  λ h. inr (inr (r.0 h)),
  elim [
    | inl x ↦ absurd (cc (p.1 x))
    | inr y ↦ elim y [ inl z ↦ absurd (cc (q.1 z)) | inr w ↦ r.1 w ]
  ],
)

-- The limits with a package are exceeded exactly when, in some direction that has a limit of its
-- own, the use reaches the limit plus the grant, or the largest word if the sum is above it. So a
-- grant for an unlimited direction is never spent.
pub exceeded-with_package :
    (l : TrafficLimits) (p : TrafficPackage) (used : TrafficTotals)
    → IsLimits l
    → IsPackage p
    → (exceeded (with_package l p) used ≡ true) ↔ (
        Reached l.in_bytes p.in_bytes used.in_bytes
        ⊎ (Reached l.out_bytes p.out_bytes used.out_bytes
            ⊎ Reached l.total_bytes p.total_bytes (total used)))
exceeded-with_package l p used hl hp =
    let a =
      limit_exceeded-extend_limit l.in_bytes p.in_bytes used.in_bytes hl.in_bytes hp.in_bytes in
    let b =
      limit_exceeded-extend_limit l.out_bytes p.out_bytes used.out_bytes hl.out_bytes
        hp.out_bytes in
    let c =
      limit_exceeded-extend_limit l.total_bytes p.total_bytes (total used) hl.total_bytes
        hp.total_bytes in
    rw (exceeded_directions l p used) (or_iff _ _ _ a b c)
