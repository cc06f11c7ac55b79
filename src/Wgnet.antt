-- ===== src/Wgnet.antt =====
-- internal/wgnet/config.go: the overlay address of a new node. An IPv4 address is a number below
-- 2 ^ 32, and `netip.ParsePrefix` and `netip.ParseAddr` are parameters. The addresses of the
-- registry are `UsedIPs` of internal/nodes/nodes.go.
pub mod Allocate
mod Tests
use singbox_deploy.Common.{
  ℕ, zero, suc, ◌+◌, ◌-◌, ◌*◌, ◌/◌, ◌^◌, ◌<◌, ◌≤◌, Text, codes, nat_eq, ◌==◌, Bool, true, false,
  not, ◌&&◌, ◌||◌, Option, none, some, List, [], ◌∷◌, ltb, contains, trim_space, is_empty,
  if◌then◌else◌, Result, ok, err,
}
use singbox_deploy.Nodes.{Node}

-- A prefix of IPv4, or of IPv6.
pub data Prefix : Type 0 where
  prefix4 : ℕ → ℕ → Prefix
  prefix6 : Prefix

-- An address that is none of IPv4 is `none`.
pub record Parser : Type 0 where
  pub parse_prefix : Text → Option Prefix
  pub parse_addr : Text → Option ℕ

-- The number of addresses under a prefix of that length.
abbrev pub block : ℕ → ℕ
block bits = 2 ^ (32 - bits)

-- `Masked`
unfoldable pub masked : ℕ → ℕ → ℕ
masked addr bits = addr / block bits * block bits

-- `Contains`: the first bits of the two are the same.
unfoldable pub prefix_contains : ℕ → ℕ → ℕ → Bool
prefix_contains network bits addr = addr / block bits == network / block bits

-- `Next`, which is no address after the last one, and no prefix contains it.
unfoldable pub in_prefix : ℕ → ℕ → ℕ → Bool
in_prefix network bits addr = ltb addr (2 ^ 32) && prefix_contains network bits addr

-- The loop from an address, with the rounds that are left.
unfoldable pub allocate_loop : ℕ → ℕ → List ℕ → ℕ → ℕ → Option ℕ
allocate_loop network bits taken zero addr = none
allocate_loop network bits taken (suc rounds) addr =
    let rest = allocate_loop network bits taken rounds (addr + 1) in
    if not (in_prefix network bits addr)
    then none
    else if not (in_prefix network bits (addr + 1))
    then none
    else if not (contains taken addr)
    then some addr
    else rest

-- The set of the addresses in use; what cannot be parsed is none.
unfoldable pub taken_addrs : Parser → List Text → List ℕ
taken_addrs net [] = []
taken_addrs net (u ∷ us) =
    let rest = taken_addrs net us in
    elim (net.parse_addr (trim_space u)) [ none ↦ rest | some a ↦ a ∷ rest ]

pub data SubnetError : Type 0 where
  bad_subnet not_ipv4 no_free : SubnetError

-- `AllocateSpokeIP`, without the printing of the address.
unfoldable pub allocate_spoke_ip : Parser → Text → List Text → Result SubnetError ℕ
allocate_spoke_ip net subnet used = elim (net.parse_prefix subnet) [
  | none ↦ err SubnetError.bad_subnet
  | some prefix6 ↦ err SubnetError.not_ipv4
  | some (prefix4 addr bits) ↦
      let network = masked addr bits in
      elim (allocate_loop network bits ((network + 1) ∷ taken_addrs net used) (block bits)
        (network + 2)) [ none ↦ err SubnetError.no_free | some a ↦ ok a ]
]

abbrev pub hub_address : Text
hub_address = codes "10.90.0.1"

-- The loop of `UsedIPs`.
unfoldable pub node_ips : List Node → List Text
node_ips [] = []
node_ips (n ∷ ns) = let rest = node_ips ns in if is_empty n.wg_ip then rest else n.wg_ip ∷ rest

unfoldable pub used_ips : List Node → List Text
used_ips list = hub_address ∷ node_ips list
