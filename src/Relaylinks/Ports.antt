-- ===== src/Relaylinks/Ports.antt =====
-- internal/relaylinks/relaylinks.go: `randomRelayPort` and `AllocateForwards`. The random offsets,
-- one for each port that is drawn, are an argument: none where the reader fails.
pub mod Draw
pub mod Allocate
use singbox_deploy.Common.{
  ℕ, zero, suc, ◌+◌, ◌%◌, Text, List, [], ◌∷◌, ◌++◌, map, Option, none, some, Bool, true, false,
  not, ltb, if◌then◌else◌, is_empty, contains, select, ℤ, pos, negsuc, int_eq, Result, ok, err,
  ◌>>=◌,
}
use singbox_deploy.Relaylinks.{Forward, Link, network_for, served_by}

abbrev pub min_relay_port : ℕ
min_relay_port = 20000

-- `maxRelayPort - minRelayPort + 1`
abbrev pub span : ℕ
span = 40000

abbrev pub relay_port_at : ℕ → ℕ → ℤ
relay_port_at start i = pos (min_relay_port + (start + i) % span)

-- The loop from its round `i`, with the rounds that are left.
unfoldable pub walk : ℕ → ℕ → ℕ → List ℤ → Option ℤ
walk start i zero used = none
walk start i (suc rounds) used =
    let rest = walk start (suc i) rounds used in
    if contains used (relay_port_at start i) then rest else some (relay_port_at start i)

unfoldable pub random_relay_port : ℕ → List ℤ → Option ℤ
random_relay_port start used = walk start 0 span used

pub data AllocateError : Type 0 where
  no_target exhausted no_random : AllocateError
  unsupported : Text → AllocateError

-- `if port > 0`
abbrev is_positive : ℤ → Bool
is_positive (pos n) = ltb 0 n
is_positive (negsuc n) = false

unfoldable pub link_ports : List Link → List ℤ
link_ports [] = []
link_ports (l ∷ ls) = map (λ (f : Forward). f.relay_port) l.forwards ++ link_ports ls

unfoldable pub used_ports : List Link → Text → List ℤ → List ℤ
unfolding link_ports
used_ports list relay_id reserved =
    select is_positive reserved ++ link_ports (served_by list relay_id)

-- One port for a target, and the port is used from then on.
unfoldable pub draw_port : Option ℕ → List ℤ → Result AllocateError ℤ
draw_port none used = err no_random
draw_port (some offset) used = elim (random_relay_port (offset % span) used) [
  | none ↦ err exhausted
  | some port ↦ ok port
]

unfoldable pub allocate_loop :
    List (Option ℕ) → List ℤ → List Text → Result AllocateError (List Forward)
allocate_loop draws used [] = ok []
allocate_loop [] used (t ∷ ts) = elim (network_for t) [
  | none ↦ err (unsupported t)
  | some network ↦ err no_random
]
allocate_loop (d ∷ draws) used (t ∷ ts) = elim (network_for t) [
  | none ↦ err (unsupported t)
  | some network ↦ elim (draw_port d used) [
    | err e ↦ err e
    | ok port ↦ elim (allocate_loop draws (port ∷ used) ts) [
      | err e ↦ err e
      | ok rest ↦ ok (record { protocol = t; network = network; relay_port = port } ∷ rest)
    ]
  ]
]

unfoldable pub allocate_forwards :
    List (Option ℕ) → List Link → Text → List ℤ → List Text → Result AllocateError (List Forward)
allocate_forwards draws list relay_id reserved targets =
    if is_empty targets
    then err no_target
    else allocate_loop draws (used_ports list relay_id reserved) targets
