-- ===== src/Common/Int.antt =====
-- Go's `int` where the source lets it be negative: ports that were read from a file.
use Prim.Native.Nat.{ℕ, ◌≤◌}
use mathlib.Core.Path.{◌≡◌}
use mathlib.Core.Logic.{◌↔◌}
use mathlib.Core.Bool.{Bool, true, false, ◌||◌}
use native.Mathlib.Omega.{arith}
use singbox_deploy.Common.Tests.{Comparable, nat_beq, ltb}

-- `negsuc n` is -(n + 1).
pub data ℤ : Type 0 where
  pos : ℕ → ℤ
  negsuc : ℕ → ℤ

abbrev int_beq : ℤ → ℤ → Bool
int_beq (pos a) (pos b) = nat_beq a b
int_beq (negsuc a) (negsuc b) = nat_beq a b
int_beq _ _ = false

pub int_beq_iff : (a b : ℤ) → (int_beq a b ≡ true) ↔ (a ≡ b)
int_beq_iff (pos a) (pos b) = ground arith
int_beq_iff (negsuc a) (negsuc b) = ground arith
int_beq_iff (pos a) (negsuc b) = ground arith
int_beq_iff (negsuc a) (pos b) = ground arith

instance abbrev pub int_eq : Comparable ℤ
int_eq = record { same = int_beq; same_iff = int_beq_iff }

-- `p < 1 || p > 65535`
abbrev pub out_of_port_range : ℤ → Bool
out_of_port_range (pos n) = ltb n 1 || ltb 65535 n
out_of_port_range (negsuc n) = true

abbrev pub IsPort : ℤ → Type 0
IsPort (pos n) = (1 ≤ n) × (n ≤ 65535)
IsPort (negsuc n) = ⊥

pub IsPort-iff : (p : ℤ) → (out_of_port_range p ≡ false) ↔ IsPort p
IsPort-iff (pos n) = ground arith
IsPort-iff (negsuc n) = ground arith
