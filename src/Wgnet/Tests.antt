-- ===== src/Wgnet/Tests.antt =====
-- The allocation on the default subnet.
use singbox_deploy.Common.{
  ℕ, ◌+◌, Text, codes, Option, some, [], ◌∷◌, ◌≡◌, refl, ok, err, arith, contains,
}
use singbox_deploy.Wgnet.{
  Parser, Prefix, SubnetError, masked, block, prefix_contains, in_prefix, allocate_loop,
  taken_addrs, allocate_spoke_ip, node_ips, used_ips,
}
use singbox_deploy.Wgnet.Allocate.{Found, result_of, allocate_spoke_ip-Found}

-- 10.90.0.0
abbrev overlay : ℕ
overlay = 173670400

-- 10.90.0.2 is in use.
abbrev net : Parser
net = record {
  parse_prefix = λ (s : Text). some (Prefix.prefix4 (overlay + 7) 24);
  parse_addr = λ (s : Text). some (overlay + 2);
}

third : allocate_spoke_ip net (codes "10.90.0.7/24") (used_ips []) ≡ ok (overlay + 3)
unfolding allocate_spoke_ip masked allocate_loop in_prefix prefix_contains taken_addrs used_ips
    node_ips contains
third = refl

-- A subnet of four addresses has one that can be given out.
abbrev tiny : Parser
tiny = record net { parse_prefix = λ (s : Text). some (Prefix.prefix4 overlay 30) }

tiny-full : allocate_spoke_ip tiny (codes "10.90.0.0/30") (used_ips []) ≡ err SubnetError.no_free
unfolding allocate_spoke_ip masked allocate_loop in_prefix prefix_contains taken_addrs used_ips
    node_ips contains
tiny-full = refl

allocate_spoke_ip-Found_example :
    (r : Option ℕ) × (allocate_spoke_ip net (codes "10.90.0.7/24") (used_ips []) ≡ result_of r)
    × Found
        (masked (overlay + 7) 24 + block 24)
        ((masked (overlay + 7) 24 + 1) ∷ taken_addrs net (used_ips []))
        (masked (overlay + 7) 24 + 2)
        r
allocate_spoke_ip-Found_example =
    allocate_spoke_ip-Found net (codes "10.90.0.7/24") [] (overlay + 7) 24 refl (omega arith)
      (omega arith)
