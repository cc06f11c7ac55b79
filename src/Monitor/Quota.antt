-- ===== src/Monitor/Quota.antt =====
-- internal/monitor/quota.go: limits, packages and counters, in bytes as 64-bit words.
pub mod Grants
mod Tests
use singbox_deploy.Common.{
  ℕ, ◌+◌, ◌-◌, ◌%◌, ◌^◌, Bool, ◌&&◌, ◌||◌, if◌then◌else◌, ltb, leb, nat_beq,
}

abbrev pub u64_mod : ℕ
u64_mod = 2 ^ 64

-- `math.MaxUint64`
abbrev pub max_u64 : ℕ
max_u64 = 2 ^ 64 - 1

pub record TrafficTotals : Type 0 where
  pub in_bytes : ℕ
  pub out_bytes : ℕ

-- The sum of the source wraps around.
unfoldable pub total : TrafficTotals → ℕ
total t = (t.in_bytes + t.out_bytes) % u64_mod

pub record TrafficLimits : Type 0 where
  pub in_bytes : ℕ
  pub out_bytes : ℕ
  pub total_bytes : ℕ

pub record TrafficPackage : Type 0 where
  pub in_bytes : ℕ
  pub out_bytes : ℕ
  pub total_bytes : ℕ

unfoldable pub limit_exceeded : ℕ → ℕ → Bool
limit_exceeded limit used = ltb 0 limit && leb limit used

unfoldable pub exceeded : TrafficLimits → TrafficTotals → Bool
unfolding limit_exceeded
exceeded l used =
    limit_exceeded l.in_bytes used.in_bytes
    || limit_exceeded l.out_bytes used.out_bytes
    || limit_exceeded l.total_bytes (total used)

unfoldable pub extend_limit : ℕ → ℕ → ℕ
extend_limit limit extra =
    if nat_beq limit 0
    then 0
    else if ltb (max_u64 - limit) extra
    then max_u64
    else (limit + extra) % u64_mod

unfoldable pub with_package : TrafficLimits → TrafficPackage → TrafficLimits
unfolding extend_limit
with_package l p = record {
  in_bytes = extend_limit l.in_bytes p.in_bytes;
  out_bytes = extend_limit l.out_bytes p.out_bytes;
  total_bytes = extend_limit l.total_bytes p.total_bytes;
}

unfoldable pub saturating_add : ℕ → ℕ → ℕ
saturating_add a b = if ltb (max_u64 - a) b then max_u64 else (a + b) % u64_mod

unfoldable pub add_package : TrafficPackage → TrafficPackage → TrafficPackage
unfolding saturating_add
add_package p other = record {
  in_bytes = saturating_add p.in_bytes other.in_bytes;
  out_bytes = saturating_add p.out_bytes other.out_bytes;
  total_bytes = saturating_add p.total_bytes other.total_bytes;
}

unfoldable pub is_zero_package : TrafficPackage → Bool
is_zero_package p = nat_beq p.in_bytes 0 && nat_beq p.out_bytes 0 && nat_beq p.total_bytes 0

unfoldable pub remaining : ℕ → ℕ → ℕ
remaining limit used = if nat_beq limit 0 || leb limit used then 0 else limit - used

unfoldable pub delta : ℕ → ℕ → ℕ
delta previous current = if ltb current previous then 0 else current - previous
