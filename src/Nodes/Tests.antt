-- ===== src/Nodes/Tests.antt =====
-- A registry of two nodes, and the operations on it.
use singbox_deploy.Common.{
  ℕ, ◌≤◌, Text, codes, text_eq, text_beq, true, false, Option, none, some, List, [], ◌∷◌, ◌++◌, map,
  length, ◌≡◌, refl, sym, ap, ◌∙◌, arith, All-map, Rearranged, select, contains, normalize,
  trim_space, trim_left, trim_right, to_lower, lower_rune, equal_fold, is_space, trim_space_of_All,
  is_empty, join, IsDigit, IsDigit-format_nat, parse_digits, parse_digits-format_nat, format_nat,
  format_nat-some, Result, negsuc, ok, pos, if◌then◌else◌,
}
use singbox_deploy.State.Entries.{Tree, Disk, Faults, stored_entries, transact}
use singbox_deploy.State.Entries.Order.{written}
use singbox_deploy.State.Entries.Runs.{loaded, Reach, Step, begin}
use singbox_deploy.Subgroups.{generate_id}
use singbox_deploy.Nodes.{
  Node, Clock, IsClock, Platform, NodeError, alias_key, subscription_alias_key, effective_alias,
  effective_subscription_alias, same_name, same_domain, trim_dot, trim_brackets, validate_unique,
}
use singbox_deploy.Nodes.Operations.{normalize_node_ids, add_node}
use singbox_deploy.Nodes.Codec.{decode_node, encode_node}
use singbox_deploy.Nodes.RoundTrip.{IsStored, decode_node-encode_node}
use singbox_deploy.Nodes.Rules.{IsNodes}
use singbox_deploy.Nodes.Reorder.{
  reorder_nodes, reorder_nodes-Rearranged, unlisted, normalize_request, pick, by_id,
}
use singbox_deploy.Nodes.Registry.{Op, run_op, apply}
use singbox_deploy.Nodes.Stored.{Reach-IsNodes}

-- A clock that prints a time as a number, and a platform that reads no text as an IP address.
abbrev parse_time : Text → Option ℕ
parse_time s = if is_empty s then none else parse_digits 0 s

abbrev clock : Clock
clock = record { format = format_nat; parse = parse_time }

abbrev os : Platform
os = record { clock = clock; parse_ip = λ s. none; digest = λ s. s }

parse_time-format_nat : (t : ℕ) → parse_time (format_nat t) ≡ some t
parse_time-format_nat t =
    let (c, s, e) = format_nat-some t in
    rw e (ap (parse_digits 0) (sym e) ∙ parse_digits-format_nat t)

not-is_space : (c : ℕ) → IsDigit c → is_space c ≡ false
unfolding is_space
not-is_space c h = ground arith

clock-IsClock : IsClock clock
clock-IsClock = record {
  back = parse_time-format_nat;
  trimmed = λ t. trim_space_of_All (format_nat t) (
      All-map IsDigit (λ c. is_space c ≡ false) not-is_space (format_nat t) (IsDigit-format_nat t));
  nothing = refl;
}

abbrev tokyo : Node
tokyo = record {
  id = codes "a1";
  alias = codes "Tokyo";
  subscription_alias = [];
  ssh_host = codes "tokyo.example.com";
  ssh_port = pos 22;
  ssh_user = [];
  wg_public_key = [];
  wg_ip = codes "10.90.0.2";
  token = [];
  agent_port = pos 0;
  arch = [];
  installed = true;
  agent_version = [];
  sing_box_version = [];
  last_seen = some 1700;
  include_in_subscription = false;
  pending_certificate = false;
  domain = codes "t.example.com";
  reality_server_name = [];
  reality_handshake_port = pos 0;
  enabled_protocols = codes "anytls" ∷ codes "tuic" ∷ [];
  reality_vision_port = pos 0;
  reality_grpc_port = pos 0;
  hysteria2_port = pos 0;
  tuic_port = pos 0;
  anytls_port = pos 0;
  protocol_settings_generation = 0;
  monitor = false;
  monitor_alias = [];
  monitor_interface = [];
  monitor_port = pos 0;
  monitor_interval_seconds = pos 0;
  traffic_in_limit_bytes = 1000;
  traffic_out_limit_bytes = 0;
  traffic_total_limit_bytes = 0;
  reset_day = pos 0;
  reset_hour = negsuc 0;
  subscription_settings_generation = 0;
}

abbrev osaka : Node
osaka = record {
  id = codes "b2";
  alias = codes "Osaka";
  subscription_alias = [];
  ssh_host = codes "osaka.example.com";
  ssh_port = pos 0;
  ssh_user = [];
  wg_public_key = [];
  wg_ip = codes "10.90.0.3";
  token = [];
  agent_port = pos 0;
  arch = [];
  installed = false;
  agent_version = [];
  sing_box_version = [];
  last_seen = none;
  include_in_subscription = false;
  pending_certificate = false;
  domain = codes "o.example.com";
  reality_server_name = [];
  reality_handshake_port = pos 0;
  enabled_protocols = [];
  reality_vision_port = pos 0;
  reality_grpc_port = pos 0;
  hysteria2_port = pos 0;
  tuic_port = pos 0;
  anytls_port = pos 0;
  protocol_settings_generation = 0;
  monitor = false;
  monitor_alias = [];
  monitor_interface = [];
  monitor_port = pos 0;
  monitor_interval_seconds = pos 0;
  traffic_in_limit_bytes = 0;
  traffic_out_limit_bytes = 0;
  traffic_total_limit_bytes = 0;
  reset_day = pos 0;
  reset_hour = pos 0;
  subscription_settings_generation = 0;
}

abbrev both : List Node
both = tokyo ∷ osaka ∷ []

tokyo-IsStored : IsStored tokyo
unfolding trim_space trim_left trim_right is_space join
tokyo-IsStored = record {
  id = refl;
  alias = refl;
  subscription_alias = refl;
  ssh_host = refl;
  ssh_port = ground arith;
  ssh_user = refl;
  wg_public_key = refl;
  wg_ip = refl;
  token = refl;
  agent_port = ground arith;
  arch = refl;
  agent_version = refl;
  sing_box_version = refl;
  domain = refl;
  reality_server_name = refl;
  reality_handshake_port = ground arith;
  enabled_protocols = record {
    parts = ground arith;
    trimmed = refl;
    some_text = λ h. λ z. absurd (ground arith);
  };
  reality_vision_port = ground arith;
  reality_grpc_port = ground arith;
  hysteria2_port = ground arith;
  tuic_port = ground arith;
  anytls_port = ground arith;
  protocol_settings_generation = ground arith;
  monitor_alias = refl;
  monitor_interface = refl;
  monitor_port = ground arith;
  monitor_interval_seconds = ground arith;
  traffic_in_limit_bytes = ground arith;
  traffic_out_limit_bytes = ground arith;
  traffic_total_limit_bytes = ground arith;
  reset_day = ground arith;
  reset_hour = ground arith;
  subscription_settings_generation = ground arith;
}

decode_node-encode_node_example : decode_node clock (written (encode_node clock tokyo)) ≡ tokyo
decode_node-encode_node_example = decode_node-encode_node clock tokyo clock-IsClock tokyo-IsStored

both-IsNodes : IsNodes os both
unfolding normalize to_lower lower_rune trim_space trim_left trim_right is_space alias_key
    subscription_alias_key effective_alias effective_subscription_alias same_name same_domain
    equal_fold trim_dot trim_brackets text_beq
both-IsNodes = record {
  sound = ((refl, λ h. absurd (ground arith)), ((refl, λ h. absurd (ground arith)), tt));
  distinct = (
    (
      record {
        ids = λ h. absurd (ground arith);
        aliases = λ h z. absurd (ground arith);
        subscription_aliases = λ h z. absurd (ground arith);
        hosts = refl;
        domains = refl;
      },
      tt,
    ),
    (tt, tt),
  );
}

swapped : reorder_nodes (codes " B2" ∷ []) both ≡ ok (osaka ∷ tokyo ∷ [])
unfolding reorder_nodes normalize_request pick by_id select contains normalize to_lower lower_rune
    trim_space trim_left trim_right is_space text_beq
swapped = refl

reorder_nodes-Rearranged_example :
    Rearranged both (osaka ∷ tokyo ∷ [])
    × ((picked : List Node) × (osaka ∷ tokyo ∷ []
          ≡ picked ++ select (unlisted (map normalize (codes " B2" ∷ []))) both)
        × (map (λ (n : Node). n.id) picked ≡ map normalize (codes " B2" ∷ [])))
reorder_nodes-Rearranged_example =
    reorder_nodes-Rearranged os (codes " B2" ∷ []) both (osaka ∷ tokyo ∷ []) both-IsNodes swapped

-- A callback that records a version, on an entry whose second write fails.
abbrev see : Node → Result NodeError Node
see n = ok (record n { agent_version = codes "v2"; last_seen = some 9 })

abbrev entries : Tree
entries = (codes "001", written (encode_node clock tokyo)) ∷ []

abbrev fresh_disk : Disk
fresh_disk = record { dir = none; staging = none; backup = none }

abbrev no_fault : Faults
no_fault = record {
  lock = true;
  list = true;
  reads = λ entry field. true;
  stage = true;
  inspect = true;
  move_aside = true;
  commit = true;
  restore = true;
  remove_backup = true;
  cleanup = true;
}

one_fits :
    (next : List Node)
    → apply os
        (Op.add none tokyo)
        (loaded (decode_node clock) (encode_node clock) (apply os) fresh_disk)
      ≡ ok next
    → length next ≤ 999
unfolding apply run_op normalize_node_ids add_node generate_id stored_entries validate_unique
    normalize to_lower lower_rune trim_space trim_left trim_right is_space
one_fits next h =
    let one : record tokyo { include_in_subscription = true } ∷ [] ≡ next = ground arith in
    rw (← one) (omega arith)

fresh-IsNodes : IsNodes os (loaded (decode_node clock) (encode_node clock) (apply os) fresh_disk)
unfolding stored_entries
fresh-IsNodes = record { sound = tt; distinct = tt }

Reach-IsNodes_example : IsNodes os (
    loaded
      (decode_node clock)
      (encode_node clock)
      (apply os)
      (transact
        (decode_node clock)
        (encode_node clock)
        no_fault
        (apply os (Op.add none tokyo))
        (begin fresh_disk)).1)
Reach-IsNodes_example = Reach-IsNodes {d = fresh_disk} os fresh-IsNodes (
    Reach.next Reach.here
      (Step.run no_fault (Op.add none tokyo) fresh_disk (λ entry field. refl) one_fits))
