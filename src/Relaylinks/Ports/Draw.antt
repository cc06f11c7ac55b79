-- ===== src/Relaylinks/Ports/Draw.antt =====
-- The search for a free port ends with one, if there is one at all.
use native.Mathlib.Nat.{add-zero}
use singbox_deploy.Common.{
  ℕ, zero, suc, ◌+◌, ◌-◌, ◌%◌, ◌≤◌, ◌<◌, ◌≡◌, arith, List, none, some, true, false, contains, ℤ,
  pos, int_eq, Bool-cases, Option-cases, ap, ◌∙◌, inl, inr,
}
use singbox_deploy.Relaylinks.Ports.{walk, random_relay_port, relay_port_at, span, min_relay_port}

walk-some :
    (start i rounds : ℕ) (used : List ℤ) {p : ℤ}
    → walk start i rounds used ≡ some p
    → (j : ℕ) × (p ≡ relay_port_at start j) × (contains used p ≡ false)
unfolding walk
walk-some start i zero used h = absurd (ground arith)
walk-some start i (suc rounds) used {p} h =
    elim (Bool-cases (contains used (relay_port_at start i))) [
      | inl e ↦ walk-some start (suc i) rounds used {p = p} (ground arith)
      | inr e ↦ (i, ground arith, ground arith)
    ]

walk-none :
    (start i rounds : ℕ) (used : List ℤ)
    → walk start i rounds used ≡ none
    → (j : ℕ) → j < rounds
    → contains used (relay_port_at start (i + j)) ≡ true
unfolding walk
walk-none start i zero used h j lt = elim lt [ ]
walk-none start i (suc rounds) used h zero lt = rw add-zero (ground arith)
walk-none start i (suc rounds) used h (suc j) lt =
    elim (Bool-cases (contains used (relay_port_at start i))) [
      | inl e ↦
          let same : i + suc j ≡ suc i + j = omega arith in
          rw same (walk-none start (suc i) rounds used (ground arith) j (omega arith))
      | inr e ↦ absurd (ground arith)
    ]

-- A port that is drawn is in the range of generated ports, and not used.
pub random_relay_port_fresh :
    (start : ℕ) (used : List ℤ) {p : ℤ}
    → random_relay_port start used ≡ some p
    → (n : ℕ) × (p ≡ pos n) × (20000 ≤ n) × (n ≤ 59999) × (contains used p ≡ false)
unfolding random_relay_port
random_relay_port_fresh start used {p} h =
    let (j, e, free) = walk-some start 0 span used {p = p} h in
    (min_relay_port + (start + j) % span, e, omega arith, omega arith, free)

exhausted :
    (start : ℕ) (used : List ℤ) (n : ℕ)
    → start < span
    → 20000 ≤ n
    → n ≤ 59999
    → random_relay_port start used ≡ none
    → contains used (pos n) ≡ true
unfolding random_relay_port
exhausted start used n below lo hi h =
    let j = (n + 20000 - start) % span in
    let at : min_relay_port + (start + (0 + j)) % span ≡ n = omega arith in
    rw at at (walk-none start 0 span used h j (omega arith))

-- From whatever offset the search starts, if one port of the generated range is free then it ends
-- with a port of that range which is free.
pub random_relay_port_total :
    (start : ℕ) (used : List ℤ) (n : ℕ)
    → start < span
    → 20000 ≤ n
    → n ≤ 59999
    → contains used (pos n) ≡ false
    → (m : ℕ) × (random_relay_port start used ≡ some (pos m))
      × (20000 ≤ m)
      × (m ≤ 59999)
      × (contains used (pos m) ≡ false)
random_relay_port_total start used n below lo hi free =
    elim (Option-cases (random_relay_port start used)) [
      | inl e ↦ absurd (ground (arith, exhausted start used n below lo hi e))
      | inr (p, e) ↦
          let (m, at, low, high, unused) = random_relay_port_fresh start used {p = p} e in
          (m, e ∙ ap some at, low, high, rw (← at) unused)
    ]
