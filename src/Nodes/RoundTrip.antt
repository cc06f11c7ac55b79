-- ===== src/Nodes/RoundTrip.antt =====
-- That a node comes back from its entry directory as it was.
use singbox_deploy.Common.{
  ◌<◌, codes, text_eq, text_beq, [], ◌≡◌, ap, ◌∙◌, join, trim_space, itoa, format_nat, atoi_value,
  parse_uint, FitsInt, uint_limit, contains,
}
use singbox_deploy.State.Entries.{read_entry_value}
use singbox_deploy.State.Entries.Order.{written}
use singbox_deploy.Nodes.{Node, Clock, IsClock}
use singbox_deploy.Nodes.Codec.{format_seen, decode_protocols, decode_node, encode_node}
use singbox_deploy.Nodes.Values.{
  IsListing, text_field, trim_or, int_back, uint_back, no_back, yes_back, seen_back, protocols_back,
  text_back,
}

-- A node as it is stored: texts without outer spaces, integers and words of 64 bits.
pub record IsStored (n : Node) : Type 0 where
  pub id : trim_space n.id ≡ n.id
  pub alias : trim_space n.alias ≡ n.alias
  pub subscription_alias : trim_space n.subscription_alias ≡ n.subscription_alias
  pub ssh_host : trim_space n.ssh_host ≡ n.ssh_host
  pub ssh_port : FitsInt n.ssh_port
  pub ssh_user : trim_space n.ssh_user ≡ n.ssh_user
  pub wg_public_key : trim_space n.wg_public_key ≡ n.wg_public_key
  pub wg_ip : trim_space n.wg_ip ≡ n.wg_ip
  pub token : trim_space n.token ≡ n.token
  pub agent_port : FitsInt n.agent_port
  pub arch : trim_space n.arch ≡ n.arch
  pub agent_version : trim_space n.agent_version ≡ n.agent_version
  pub sing_box_version : trim_space n.sing_box_version ≡ n.sing_box_version
  pub domain : trim_space n.domain ≡ n.domain
  pub reality_server_name : trim_space n.reality_server_name ≡ n.reality_server_name
  pub reality_handshake_port : FitsInt n.reality_handshake_port
  pub enabled_protocols : IsListing n.enabled_protocols
  pub reality_vision_port : FitsInt n.reality_vision_port
  pub reality_grpc_port : FitsInt n.reality_grpc_port
  pub hysteria2_port : FitsInt n.hysteria2_port
  pub tuic_port : FitsInt n.tuic_port
  pub anytls_port : FitsInt n.anytls_port
  pub protocol_settings_generation : n.protocol_settings_generation < uint_limit
  pub monitor_alias : trim_space n.monitor_alias ≡ n.monitor_alias
  pub monitor_interface : trim_space n.monitor_interface ≡ n.monitor_interface
  pub monitor_port : FitsInt n.monitor_port
  pub monitor_interval_seconds : FitsInt n.monitor_interval_seconds
  pub traffic_in_limit_bytes : n.traffic_in_limit_bytes < uint_limit
  pub traffic_out_limit_bytes : n.traffic_out_limit_bytes < uint_limit
  pub traffic_total_limit_bytes : n.traffic_total_limit_bytes < uint_limit
  pub reset_day : FitsInt n.reset_day
  pub reset_hour : FitsInt n.reset_hour
  pub subscription_settings_generation : n.subscription_settings_generation < uint_limit

-- A node that is stored with trimmed texts, integers of 64 bits and protocols without commas is what
-- the next load reads, all fields included, for a clock that reads back what it prints.
pub decode_node-encode_node :
    (clock : Clock) (n : Node)
    → IsClock clock
    → IsStored n
    → decode_node clock (written (encode_node clock n)) ≡ n
unfolding decode_node encode_node read_entry_value text_beq contains
decode_node-encode_node clock n laws s = λ i. record {
  id = (text_field (trim_space n.id) [] ∙ trim_or n.id s.id) i;
  alias = (text_field (trim_space n.alias) [] ∙ trim_or n.alias s.alias) i;
  subscription_alias =
      (text_field (trim_space n.subscription_alias) []
          ∙ trim_or n.subscription_alias s.subscription_alias)
        i;
  ssh_host = (text_field (trim_space n.ssh_host) [] ∙ trim_or n.ssh_host s.ssh_host) i;
  ssh_port =
      (ap atoi_value (text_field (itoa n.ssh_port) (codes "0")) ∙ int_back n.ssh_port s.ssh_port) i;
  ssh_user = (text_field (trim_space n.ssh_user) [] ∙ trim_or n.ssh_user s.ssh_user) i;
  wg_public_key =
      (text_field (trim_space n.wg_public_key) [] ∙ trim_or n.wg_public_key s.wg_public_key) i;
  wg_ip = (text_field (trim_space n.wg_ip) [] ∙ trim_or n.wg_ip s.wg_ip) i;
  token = (text_field (trim_space n.token) [] ∙ trim_or n.token s.token) i;
  agent_port =
      (ap atoi_value (text_field (itoa n.agent_port) (codes "0"))
          ∙ int_back n.agent_port s.agent_port)
        i;
  arch = (text_field (trim_space n.arch) [] ∙ trim_or n.arch s.arch) i;
  installed = (no_back n.installed) i;
  agent_version =
      (text_field (trim_space n.agent_version) [] ∙ trim_or n.agent_version s.agent_version) i;
  sing_box_version =
      (text_field (trim_space n.sing_box_version) []
          ∙ trim_or n.sing_box_version s.sing_box_version)
        i;
  last_seen =
      (ap clock.parse (text_field (format_seen clock n.last_seen) [])
          ∙ seen_back clock laws n.last_seen)
        i;
  include_in_subscription = (yes_back n.include_in_subscription) i;
  pending_certificate = (no_back n.pending_certificate) i;
  domain = (text_field (trim_space n.domain) [] ∙ trim_or n.domain s.domain) i;
  reality_server_name =
      (text_field (trim_space n.reality_server_name) []
          ∙ trim_or n.reality_server_name s.reality_server_name)
        i;
  reality_handshake_port =
      (ap atoi_value (text_field (itoa n.reality_handshake_port) (codes "0"))
          ∙ int_back n.reality_handshake_port s.reality_handshake_port)
        i;
  enabled_protocols =
      (ap decode_protocols (text_field (join b',' n.enabled_protocols) [])
          ∙ protocols_back n.enabled_protocols s.enabled_protocols)
        i;
  reality_vision_port =
      (ap atoi_value (text_field (itoa n.reality_vision_port) (codes "0"))
          ∙ int_back n.reality_vision_port s.reality_vision_port)
        i;
  reality_grpc_port =
      (ap atoi_value (text_field (itoa n.reality_grpc_port) (codes "0"))
          ∙ int_back n.reality_grpc_port s.reality_grpc_port)
        i;
  hysteria2_port =
      (ap atoi_value (text_field (itoa n.hysteria2_port) (codes "0"))
          ∙ int_back n.hysteria2_port s.hysteria2_port)
        i;
  tuic_port =
      (ap atoi_value (text_field (itoa n.tuic_port) (codes "0")) ∙ int_back n.tuic_port s.tuic_port)
        i;
  anytls_port =
      (ap atoi_value (text_field (itoa n.anytls_port) (codes "0"))
          ∙ int_back n.anytls_port s.anytls_port)
        i;
  protocol_settings_generation =
      (ap parse_uint (text_field (format_nat n.protocol_settings_generation) (codes "0"))
          ∙ uint_back n.protocol_settings_generation s.protocol_settings_generation)
        i;
  monitor = (no_back n.monitor) i;
  monitor_alias =
      (text_field (trim_space n.monitor_alias) [] ∙ trim_or n.monitor_alias s.monitor_alias) i;
  monitor_interface =
      (text_field (trim_space n.monitor_interface) []
          ∙ trim_or n.monitor_interface s.monitor_interface)
        i;
  monitor_port =
      (ap atoi_value (text_field (itoa n.monitor_port) (codes "0"))
          ∙ int_back n.monitor_port s.monitor_port)
        i;
  monitor_interval_seconds =
      (ap atoi_value (text_field (itoa n.monitor_interval_seconds) (codes "0"))
          ∙ int_back n.monitor_interval_seconds s.monitor_interval_seconds)
        i;
  traffic_in_limit_bytes =
      (ap parse_uint (text_field (format_nat n.traffic_in_limit_bytes) (codes "0"))
          ∙ uint_back n.traffic_in_limit_bytes s.traffic_in_limit_bytes)
        i;
  traffic_out_limit_bytes =
      (ap parse_uint (text_field (format_nat n.traffic_out_limit_bytes) (codes "0"))
          ∙ uint_back n.traffic_out_limit_bytes s.traffic_out_limit_bytes)
        i;
  traffic_total_limit_bytes =
      (ap parse_uint (text_field (format_nat n.traffic_total_limit_bytes) (codes "0"))
          ∙ uint_back n.traffic_total_limit_bytes s.traffic_total_limit_bytes)
        i;
  reset_day =
      (ap atoi_value (text_field (itoa n.reset_day) (codes "0")) ∙ int_back n.reset_day s.reset_day)
        i;
  reset_hour =
      (ap atoi_value (text_field (itoa n.reset_hour) (codes "0"))
          ∙ int_back n.reset_hour s.reset_hour)
        i;
  subscription_settings_generation =
      (ap parse_uint (text_field (format_nat n.subscription_settings_generation) (codes "0"))
          ∙ uint_back n.subscription_settings_generation s.subscription_settings_generation)
        i;
}

abbrev pub reload : Clock → Node → Node
reload clock n = decode_node clock (written (encode_node clock n))

pub reload_id : (clock : Clock) (n : Node) → (reload clock n).id ≡ trim_space n.id
unfolding decode_node encode_node read_entry_value text_beq contains
reload_id clock n = text_field (trim_space n.id) [] ∙ text_back n.id

pub reload_alias : (clock : Clock) (n : Node) → (reload clock n).alias ≡ trim_space n.alias
unfolding decode_node encode_node read_entry_value text_beq contains
reload_alias clock n = text_field (trim_space n.alias) [] ∙ text_back n.alias

pub reload_subscription_alias :
    (clock : Clock) (n : Node)
    → (reload clock n).subscription_alias ≡ trim_space n.subscription_alias
unfolding decode_node encode_node read_entry_value text_beq contains
reload_subscription_alias clock n =
    text_field (trim_space n.subscription_alias) [] ∙ text_back n.subscription_alias

pub reload_ssh_host : (clock : Clock) (n : Node) → (reload clock n).ssh_host ≡ trim_space n.ssh_host
unfolding decode_node encode_node read_entry_value text_beq contains
reload_ssh_host clock n = text_field (trim_space n.ssh_host) [] ∙ text_back n.ssh_host

pub reload_domain : (clock : Clock) (n : Node) → (reload clock n).domain ≡ trim_space n.domain
unfolding decode_node encode_node read_entry_value text_beq contains
reload_domain clock n = text_field (trim_space n.domain) [] ∙ text_back n.domain
