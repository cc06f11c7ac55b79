-- ===== src/Relaylinks/Tests.antt =====
-- Runs of the registry of relay links at concrete inputs.
use singbox_deploy.Common.{
  ℕ, ◌≤◌, Text, codes, text_beq, List, [], ◌∷◌, map, length, none, some, true, false, ◌≡◌, ◌≢◌, ◌↔◌,
  refl, arith, text_eq, ◌==◌, ◌&&◌, not, pos, int_eq, ok, err, contains, index_from, normalize,
  check_others, All, AllBut, AllPairs, select, atoi, split, trim_space,
}
use singbox_deploy.State.Entries.{Disk, Faults, stored_entries, transact}
use singbox_deploy.State.Entries.Runs.{loaded, Reach, Step, begin}
use singbox_deploy.Relaylinks.{
  Forward, Link, LinkError, network_for, hysteria2, tuic, normalized, index_of, check_forward,
  check_forwards, first_clash, conflict, validate, set_link, remove_link, is_orphan, seen_after,
  drop_loop, drop_node, find_link, served_by, is_landing, is_relay,
}
use singbox_deploy.Relaylinks.Validity.{IsLink, IsForward, Compatible, Disjoint}
use singbox_deploy.Relaylinks.Validate.{validate_iff}
use singbox_deploy.Relaylinks.Registry.{IsRegistry, spares}
use singbox_deploy.Relaylinks.Queries.{find_link-set_link, drop_node_reports, fronts}
use singbox_deploy.Relaylinks.Hops.{IsHop, Reach-IsHop, find_link-remove_link}
use singbox_deploy.Relaylinks.Codec.{
  decode_link, encode_link, encode_forwards, decode_forwards, decode_forwards-encode_forwards,
  record_of, decode_records,
}
use singbox_deploy.Relaylinks.Stored.{Op, apply, Reach-IsRegistry}
use singbox_deploy.Relaylinks.Ports.{
  walk, random_relay_port, used_ports, draw_port, allocate_loop, allocate_forwards,
}
use singbox_deploy.Relaylinks.Ports.Draw.{random_relay_port_total}
use singbox_deploy.Relaylinks.Ports.Allocate.{allocate_forwards_usable}

-- What the tests run.
program : Unit {0}
unfolding text_beq contains index_from normalize check_others select network_for normalized index_of
    check_forward check_forwards first_clash conflict validate set_link remove_link is_orphan
    seen_after drop_loop drop_node find_link served_by is_landing is_relay apply stored_entries
program = tt

abbrev forward : Forward
forward = record { protocol = hysteria2; network = codes "udp"; relay_port = pos 20001 }

-- The hub, fronted by the spoke a1.
abbrev hub_link : Link
hub_link = record { landing_id = codes "hub"; relay_id = codes "a1"; forwards = forward ∷ [] }

-- As a form hands it over.
abbrev typed : Link
typed = record { landing_id = codes " Hub"; relay_id = codes "A1 "; forwards = forward ∷ [] }

abbrev chained : Link
chained = record { landing_id = codes "b2"; relay_id = codes "hub"; forwards = forward ∷ [] }

set_typed : set_link typed [] ≡ ok (hub_link ∷ [])
unfolding program
set_typed = refl

refuses_chain : set_link chained (hub_link ∷ []) ≡ err (LinkError.relay_is_landing chained)
unfolding program
refuses_chain = refl

drops : drop_node (codes "HUB") (hub_link ∷ []) ≡ (codes "a1" ∷ [], [])
unfolding program
drops = refl

IsLink-hub_link : IsLink hub_link
unfolding program
IsLink-hub_link = ((validate_iff [] hub_link none).0 refl).0

registry : IsRegistry (hub_link ∷ [])
unfolding program
registry = record {
  sound = (IsLink-hub_link, tt);
  normal = ((refl, refl), tt);
  compatible = (tt, tt);
}

validate_iff_example :
    (validate (hub_link ∷ []) hub_link (some 0) ≡ none)
    ↔ (IsLink hub_link × AllBut (λ e. Compatible e hub_link) (some 0) 0 (hub_link ∷ []))
validate_iff_example = validate_iff (hub_link ∷ []) hub_link (some 0)

find_link-set_link_example : find_link (hub_link ∷ []) (codes "HUB") ≡ some hub_link
unfolding program
find_link-set_link_example = find_link-set_link typed [] (codes "HUB") set_typed

removes : remove_link (codes "hub") (hub_link ∷ []) ≡ ok []
unfolding program
removes = refl

find_link-remove_link_example : find_link [] (codes "hub") ≡ none
unfolding program
find_link-remove_link_example =
    find_link-remove_link (codes "hub") (hub_link ∷ []) (codes "hub") removes registry

hub_named : normalize (codes "HUB") ≢ []
unfolding program
hub_named = λ e. cc

drop_node_reports_example :
    ((drop_node (codes "HUB") (hub_link ∷ [])).1
      ≡ select (spares (normalize (codes "HUB"))) (hub_link ∷ []))
    × ((p : Text)
        → contains (drop_node (codes "HUB") (hub_link ∷ [])).0 p ≡ (
            contains
              (map
                (λ (l : Link). l.relay_id)
                (select (fronts (normalize (codes "HUB"))) (hub_link ∷ [])))
              p
            && not (p == normalize (codes "HUB"))))
drop_node_reports_example = drop_node_reports (codes "HUB") (hub_link ∷ []) hub_named

IsForward-forward : IsForward forward
unfolding program
IsForward-forward = (refl, omega arith)

decode_forwards-encode_forwards_example :
    decode_forwards (encode_forwards (forward ∷ [])) ≡ forward ∷ []
decode_forwards-encode_forwards_example =
    decode_forwards-encode_forwards (forward ∷ []) (IsForward-forward, tt)

-- A record of the older form, with the landing port, and one that is malformed.
decodes_old : decode_forwards (codes "hysteria2:udp:20001:443, tuic:udp") ≡ forward ∷ []
unfolding program decode_forwards decode_records record_of split trim_space atoi
decodes_old = refl

random_relay_port_total_example :
    (m : ℕ) × (random_relay_port 7 (pos 20007 ∷ []) ≡ some (pos m))
    × (20000 ≤ m)
    × (m ≤ 59999)
    × (contains (pos 20007 ∷ []) (pos m) ≡ false)
unfolding program
random_relay_port_total_example =
    random_relay_port_total 7 (pos 20007 ∷ []) 20008 (omega arith) (omega arith) (omega arith) refl

abbrev drawn : Forward
drawn = record { protocol = tuic; network = codes "udp"; relay_port = pos 20002 }

allocates :
    allocate_forwards (some 0 ∷ []) (hub_link ∷ []) (codes "a1") (pos 20000 ∷ []) (tuic ∷ [])
    ≡ ok (drawn ∷ [])
unfolding program walk random_relay_port used_ports draw_port allocate_loop allocate_forwards
allocates = refl

allocate_forwards_usable_example :
    (map (λ (f : Forward). f.protocol) (drawn ∷ []) ≡ tuic ∷ [])
    × All IsForward (drawn ∷ [])
    × AllPairs (λ (f g : Forward). f.relay_port ≢ g.relay_port) (drawn ∷ [])
    × All (λ (f : Forward). All (λ q. q ≢ f.relay_port) (pos 20000 ∷ [])) (drawn ∷ [])
    × All (λ (l : Link). Disjoint (drawn ∷ []) l.forwards) (served_by (hub_link ∷ []) (codes "a1"))
allocate_forwards_usable_example =
    allocate_forwards_usable (some 0 ∷ []) (hub_link ∷ []) (codes "a1") (pos 20000 ∷ []) (tuic ∷ [])
      allocates

-- A disk on which no registry was ever written, and the one after a `Set`.
abbrev fresh_disk : Disk
fresh_disk = record { dir = none; staging = none; backup = none }

abbrev no_fault : Faults
no_fault = record {
  lock = true;
  list = true;
  reads = λ entry field. true;
  stage = true;
  inspect = true;
  move_aside = true;
  commit = true;
  restore = true;
  remove_backup = true;
  cleanup = true;
}

one_fits :
    (next : List Link)
    → apply (Op.set typed) (loaded decode_link encode_link apply fresh_disk) ≡ ok next
    → length next ≤ 999
unfolding program
one_fits next h = let one : hub_link ∷ [] ≡ next = ground arith in rw (← one) (omega arith)

fresh-IsRegistry : IsRegistry (loaded decode_link encode_link apply fresh_disk)
unfolding program
fresh-IsRegistry = record { sound = tt; normal = tt; compatible = tt }

Reach-IsRegistry_example : IsRegistry (
    loaded decode_link encode_link apply
      (transact decode_link encode_link no_fault (apply (Op.set typed)) (begin fresh_disk)).1)
Reach-IsRegistry_example = Reach-IsRegistry {d = fresh_disk} fresh-IsRegistry (
    Reach.next Reach.here
      (Step.run no_fault (Op.set typed) fresh_disk (λ entry field. refl) one_fits))

abbrev set_disk : Disk
set_disk = (transact decode_link encode_link no_fault (apply (Op.set typed)) (begin fresh_disk)).1

Reach-IsHop_example :
    All
      (IsHop (loaded decode_link encode_link apply set_disk))
      (loaded decode_link encode_link apply set_disk)
Reach-IsHop_example = Reach-IsHop {d = fresh_disk} refl (
    Reach.next Reach.here
      (Step.run no_fault (Op.set typed) fresh_disk (λ entry field. refl) one_fits))
