-- ===== src/Wgnet/Allocate.antt =====
-- The allocated address is the lowest one that is free.
use native.Mathlib.Omega.{pow_step}
use singbox_deploy.Common.{
  ℕ, zero, suc, ◌+◌, ◌-◌, ◌*◌, ◌/◌, ◌^◌, ◌<◌, ◌≤◌, nat_eq, ◌==◌, true, false, ◌≡◌, ◌↔◌, arith,
  nat_beq_iff, Text, Result, ok, err, List, ◌∷◌, contains, Option, none, some, Bool-cases, inl, inr,
  ap, ◌∙◌, ltb, ◌&&◌,
}
use singbox_deploy.Nodes.{Node}
use singbox_deploy.Wgnet.{
  Parser, Prefix, SubnetError, taken_addrs, allocate_spoke_ip, used_ips, block, masked,
  prefix_contains, in_prefix, allocate_loop,
}

quot_iff : (a q s : ℕ) → 0 < s → (a / s ≡ q) ↔ ((q * s ≤ a) × (a < q * s + s))
quot_iff a q s h = grind arith

next : (a b : ℕ) → suc a + b ≡ suc (a + b)
next a b = omega arith

mul_assoc : (x y : ℕ) → 2 * x * y ≡ 2 * (x * y)
mul_assoc x y = grind arith

pow_add : (a b : ℕ) → 2 ^ a * 2 ^ b ≡ 2 ^ (a + b)
pow_add zero b = grind arith
pow_add (suc a) b =
    let rest = pow_add a b in
    let left : 2 ^ suc a ≡ 2 * 2 ^ a = pow_step 2 a in
    let right : 2 ^ (suc a + b) ≡ 2 * 2 ^ (a + b) =
      ap (λ n. 2 ^ n) (next a b) ∙ pow_step 2 (a + b) in
    rw (left, right, ← rest) (mul_assoc (2 ^ a) (2 ^ b))

pow_pos : (a : ℕ) → 0 < 2 ^ a
pow_pos zero = omega arith
pow_pos (suc a) = let rest = pow_pos a in grind (arith, rest)

bounded : (a s t : ℕ) → 0 < s → s * t ≡ 2 ^ 32 → a < 2 ^ 32 → a / s * s + s ≤ 2 ^ 32
bounded a s t some_s whole small =
    let below : a / s < t = grind arith in
    let more : (a / s + 1) * s ≤ t * s = grind arith in grind arith

-- The addresses under a prefix of IPv4 all are addresses.
masked_end : (addr bits : ℕ) → addr < 2 ^ 32 → bits ≤ 32 → masked addr bits + block bits ≤ 2 ^ 32
unfolding masked
masked_end addr bits small short =
    let all : 32 - bits + bits ≡ 32 = omega arith in
    let whole : 2 ^ (32 - bits) * 2 ^ bits ≡ 2 ^ 32 =
      pow_add (32 - bits) bits ∙ ap (λ n. 2 ^ n) all in
    bounded addr (block bits) (2 ^ bits) (pow_pos (32 - bits)) whole small

quot_self : (q s : ℕ) → 0 < s → q * s / s ≡ q
quot_self q s h = (quot_iff (q * s) q s h).1 (omega arith, omega arith)

in_prefix_iff :
    (q s addr : ℕ)
    → 0 < s
    → q * s + s ≤ 2 ^ 32
    → ((ltb addr (2 ^ 32) && addr / s == q * s / s) ≡ true) ↔ ((q * s ≤ addr) × (addr < q * s + s))
in_prefix_iff q s addr some_s inside =
    rw (quot_self q s some_s) (ground (arith, quot_iff addr q s some_s))

in_prefix-masked :
    (addr bits : ℕ)
    → addr < 2 ^ 32
    → bits ≤ 32
    → (a : ℕ)
    → (in_prefix (masked addr bits) bits a ≡ true)
      ↔ ((masked addr bits ≤ a) × (a < masked addr bits + block bits))
unfolding in_prefix prefix_contains masked
in_prefix-masked addr bits small short a =
    in_prefix_iff (addr / block bits) (block bits) a (pow_pos (32 - bits))
      (masked_end addr bits small short)

abbrev pub result_of : Option ℕ → Result SubnetError ℕ
result_of none = err SubnetError.no_free
result_of (some a) = ok a

-- What a search from an address finds: the first one that is not taken, or none where all are.
abbrev pub Found : ℕ → List ℕ → ℕ → Option ℕ → Type 0
Found end taken from none = (a : ℕ) → from ≤ a → a + 1 < end → contains taken a ≡ true
Found end taken from (some a) =
    (from ≤ a)
    × (a + 1 < end)
    × (contains taken a ≡ false)
    × ((b : ℕ) → from ≤ b → b < a → contains taken b ≡ true)

-- A taken address does not change what is found.
Found-behind :
    (end : ℕ) (taken : List ℕ) (from : ℕ) (r : Option ℕ)
    → contains taken from ≡ true
    → Found end taken (from + 1) r
    → Found end taken from r
Found-behind end taken from none here h = λ a le lt. elim (Bool-cases (a == from)) [
  | inl e ↦ let same = (nat_beq_iff a from).0 e in rw same here
  | inr e ↦ let apart = nat_beq_iff a from in h a (ground arith) lt
]
Found-behind end taken from (some a) here (le, lt, free, below) = (
  omega arith,
  lt,
  free,
  λ b le' lt'. elim (Bool-cases (b == from)) [
    | inl e ↦ let same = (nat_beq_iff b from).0 e in rw same here
    | inr e ↦ let apart = nat_beq_iff b from in below b (ground arith) lt'
  ],
)

module _ (network bits : ℕ) (taken : List ℕ)
    (inside : (a : ℕ)
      → (in_prefix network bits a ≡ true) ↔ ((network ≤ a) × (a < network + block bits))) where
  allocate_loop-Found :
      (rounds from : ℕ)
      → network ≤ from
      → network + block bits ≤ from + rounds
      → Found (network + block bits) taken from (allocate_loop network bits taken rounds from)
  unfolding allocate_loop
  allocate_loop-Found zero from low enough = λ a le lt. absurd (omega arith)
  allocate_loop-Found (suc rounds) from low enough =
      let ih = allocate_loop-Found rounds (from + 1) (omega arith) (omega arith) in
      elim (Bool-cases (in_prefix network bits from)) [
        | inr e ↦ rw e (λ a le lt. absurd (ground (arith, inside from, e)))
        | inl e ↦ elim (Bool-cases (in_prefix network bits (from + 1))) [
          | inr f ↦ rw (e, f) (λ a le lt. absurd (ground (arith, inside (from + 1), f)))
          | inl f ↦ elim (Bool-cases (contains taken from)) [
            | inl here ↦
                rw (e, f, here)
                  (Found-behind (network + block bits) taken from
                    (allocate_loop network bits taken rounds (from + 1)) here ih)
            | inr free ↦
                rw (e, f, free)
                  ((
                    omega arith,
                    ((inside (from + 1)).0 f).1,
                    free,
                    λ b le lt. absurd (omega arith),
                  ))
          ]
        ]
      ]

-- For a subnet of IPv4 with a prefix of at most 32 bits, `AllocateSpokeIP` on `UsedIPs` of any list
-- of nodes gives the lowest address behind that of the hub that is not the subnet's last and is no
-- address in use, and reports that none is free only where each of those is in use.
pub allocate_spoke_ip-Found :
    (net : Parser) (subnet : Text) (list : List Node) (addr bits : ℕ)
    → net.parse_prefix subnet ≡ some (Prefix.prefix4 addr bits)
    → addr < 2 ^ 32
    → bits ≤ 32
    → (r : Option ℕ) × (allocate_spoke_ip net subnet (used_ips list) ≡ result_of r)
      × Found
          (masked addr bits + block bits)
          ((masked addr bits + 1) ∷ taken_addrs net (used_ips list))
          (masked addr bits + 2)
          r
unfolding allocate_spoke_ip
allocate_spoke_ip-Found net subnet list addr bits h small short =
    let network = masked addr bits in
    let taken = (network + 1) ∷ taken_addrs net (used_ips list) in
    let inside = in_prefix-masked addr bits small short in
    (
      allocate_loop network bits taken (block bits) (network + 2),
      ground (arith, h),
      allocate_loop-Found network bits taken inside (block bits) (network + 2) (omega arith)
          (omega arith),
    )
