-- ===== src/Nodes/Codec.antt =====
-- internal/nodes/nodes.go: how a node is stored in its entry directory.
use singbox_deploy.Common.{
  ℕ, Text, codes, text_eq, ◌==◌, Bool, true, false, Option, none, some, List, [], ◌∷◌, split, join,
  trim_space, itoa, format_nat, atoi_value, parse_uint, is_empty, if◌then◌else◌,
}
use singbox_deploy.State.Entries.{Fields, read_entry_value}
use singbox_deploy.Nodes.{Node, Clock}

unfoldable pub yes_no : Bool → Text
yes_no true = codes "yes"
yes_no false = codes "no"

-- `n.LastSeen.UTC().Format(time.RFC3339Nano)`, or nothing for the zero time
unfoldable pub format_seen : Clock → Option ℕ → Text
format_seen clock none = []
format_seen clock (some t) = clock.format t

unfoldable pub decode_protocols : Text → List Text
decode_protocols value = if is_empty value then [] else split b',' value

unfoldable pub decode_node : Clock → Fields → Node
decode_node clock root = record {
  id = read_entry_value root (codes "id") [];
  alias = read_entry_value root (codes "alias") [];
  subscription_alias = read_entry_value root (codes "subscription_alias") [];
  ssh_host = read_entry_value root (codes "ssh_host") [];
  ssh_port = atoi_value (read_entry_value root (codes "ssh_port") (codes "0"));
  ssh_user = read_entry_value root (codes "ssh_user") [];
  wg_public_key = read_entry_value root (codes "wg_public_key") [];
  wg_ip = read_entry_value root (codes "wg_ip") [];
  token = read_entry_value root (codes "token") [];
  agent_port = atoi_value (read_entry_value root (codes "agent_port") (codes "0"));
  arch = read_entry_value root (codes "arch") [];
  installed = read_entry_value root (codes "installed") (codes "no") == codes "yes";
  agent_version = read_entry_value root (codes "agent_version") [];
  sing_box_version = read_entry_value root (codes "singbox_version") [];
  last_seen = clock.parse (read_entry_value root (codes "last_seen") []);
  include_in_subscription =
      read_entry_value root (codes "include_in_subscription") (codes "yes") == codes "yes";
  pending_certificate =
      read_entry_value root (codes "pending_certificate") (codes "no") == codes "yes";
  domain = read_entry_value root (codes "domain") [];
  reality_server_name = read_entry_value root (codes "reality_server_name") [];
  reality_handshake_port =
      atoi_value (read_entry_value root (codes "reality_handshake_port") (codes "0"));
  enabled_protocols = decode_protocols (read_entry_value root (codes "enabled_protocols") []);
  reality_vision_port =
      atoi_value (read_entry_value root (codes "reality_vision_port") (codes "0"));
  reality_grpc_port = atoi_value (read_entry_value root (codes "reality_grpc_port") (codes "0"));
  hysteria2_port = atoi_value (read_entry_value root (codes "hysteria2_port") (codes "0"));
  tuic_port = atoi_value (read_entry_value root (codes "tuic_port") (codes "0"));
  anytls_port = atoi_value (read_entry_value root (codes "anytls_port") (codes "0"));
  protocol_settings_generation =
      parse_uint (read_entry_value root (codes "protocol_settings_generation") (codes "0"));
  monitor = read_entry_value root (codes "monitor") (codes "no") == codes "yes";
  monitor_alias = read_entry_value root (codes "monitor_alias") [];
  monitor_interface = read_entry_value root (codes "monitor_interface") [];
  monitor_port = atoi_value (read_entry_value root (codes "monitor_port") (codes "0"));
  monitor_interval_seconds =
      atoi_value (read_entry_value root (codes "monitor_interval_seconds") (codes "0"));
  traffic_in_limit_bytes =
      parse_uint (read_entry_value root (codes "traffic_in_limit_bytes") (codes "0"));
  traffic_out_limit_bytes =
      parse_uint (read_entry_value root (codes "traffic_out_limit_bytes") (codes "0"));
  traffic_total_limit_bytes =
      parse_uint (read_entry_value root (codes "traffic_total_limit_bytes") (codes "0"));
  reset_day = atoi_value (read_entry_value root (codes "reset_day") (codes "0"));
  reset_hour = atoi_value (read_entry_value root (codes "reset_hour") (codes "0"));
  subscription_settings_generation =
      parse_uint (read_entry_value root (codes "subscription_settings_generation") (codes "0"));
}

unfoldable pub encode_node : Clock → Node → Fields
encode_node clock n =
    (codes "id", trim_space n.id)
    ∷ (codes "alias", trim_space n.alias)
    ∷ (codes "subscription_alias", trim_space n.subscription_alias)
    ∷ (codes "ssh_host", trim_space n.ssh_host)
    ∷ (codes "ssh_port", itoa n.ssh_port)
    ∷ (codes "ssh_user", trim_space n.ssh_user)
    ∷ (codes "wg_public_key", trim_space n.wg_public_key)
    ∷ (codes "wg_ip", trim_space n.wg_ip)
    ∷ (codes "token", trim_space n.token)
    ∷ (codes "agent_port", itoa n.agent_port)
    ∷ (codes "arch", trim_space n.arch)
    ∷ (codes "installed", yes_no n.installed)
    ∷ (codes "agent_version", trim_space n.agent_version)
    ∷ (codes "singbox_version", trim_space n.sing_box_version)
    ∷ (codes "last_seen", format_seen clock n.last_seen)
    ∷ (codes "include_in_subscription", yes_no n.include_in_subscription)
    ∷ (codes "pending_certificate", yes_no n.pending_certificate)
    ∷ (codes "domain", trim_space n.domain)
    ∷ (codes "reality_server_name", trim_space n.reality_server_name)
    ∷ (codes "reality_handshake_port", itoa n.reality_handshake_port)
    ∷ (codes "enabled_protocols", join b',' n.enabled_protocols)
    ∷ (codes "reality_vision_port", itoa n.reality_vision_port)
    ∷ (codes "reality_grpc_port", itoa n.reality_grpc_port)
    ∷ (codes "hysteria2_port", itoa n.hysteria2_port)
    ∷ (codes "tuic_port", itoa n.tuic_port)
    ∷ (codes "anytls_port", itoa n.anytls_port)
    ∷ (codes "protocol_settings_generation", format_nat n.protocol_settings_generation)
    ∷ (codes "monitor", yes_no n.monitor)
    ∷ (codes "monitor_alias", trim_space n.monitor_alias)
    ∷ (codes "monitor_interface", trim_space n.monitor_interface)
    ∷ (codes "monitor_port", itoa n.monitor_port)
    ∷ (codes "monitor_interval_seconds", itoa n.monitor_interval_seconds)
    ∷ (codes "traffic_in_limit_bytes", format_nat n.traffic_in_limit_bytes)
    ∷ (codes "traffic_out_limit_bytes", format_nat n.traffic_out_limit_bytes)
    ∷ (codes "traffic_total_limit_bytes", format_nat n.traffic_total_limit_bytes)
    ∷ (codes "reset_day", itoa n.reset_day)
    ∷ (codes "reset_hour", itoa n.reset_hour)
    ∷ (codes "subscription_settings_generation", format_nat n.subscription_settings_generation)
    ∷ []
