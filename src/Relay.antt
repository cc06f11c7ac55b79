-- ===== src/Relay.antt =====
-- internal/relay/relay.go: the forwarding job of a relay node, and its validation. The file of the
-- job is a value of the job itself: JSON is not modelled.
pub mod Validity
pub mod Rules
pub mod Dispatch
pub mod Firewall
pub mod Applier
pub mod Apply
pub mod Effects
pub mod Remembered
pub mod Installed
pub mod Works
pub mod Quota
pub mod Readers
mod Tests
use singbox_deploy.Common.{
  Text, codes, text_eq, ◌==◌, Bool, true, false, not, ◌&&◌, ◌||◌, Option, none, some, List, [], ◌∷◌,
  ◌++◌, contains, find?, trim_space, is_empty, if◌then◌else◌, Result, ok, err, ℤ, out_of_port_range,
  itoa,
}

pub record Forward : Type 0 where
  pub protocol : Text
  pub network : Text
  pub listen_port : ℤ
  pub target_port : ℤ

pub record Landing : Type 0 where
  pub node_id : Text
  pub name : Text
  pub host : Text
  pub address : Text
  pub forwards : List Forward

pub record Config : Type 0 where
  pub landings : List Landing

-- `Config.Empty`
unfoldable pub forwards_nothing : List Landing → Bool
forwards_nothing [] = true
forwards_nothing (l ∷ ls) = is_empty l.forwards && forwards_nothing ls

unfoldable pub display_name : Landing → Text
display_name l =
    if not (is_empty (trim_space l.name))
    then trim_space l.name
    else if not (is_empty (trim_space l.host))
    then trim_space l.host
    else trim_space l.node_id

-- `key := forward.Network + "/" + fmt.Sprint(forward.ListenPort)`
unfoldable pub socket : Forward → Text
socket f = f.network ++ codes "/" ++ itoa f.listen_port

pub data ConfigError : Type 0 where
  no_node_id : ConfigError
  repeated_landing : Text → ConfigError
  no_host no_forward : Text → ConfigError
  neither_tcp_nor_udp : Forward → Text → ConfigError
  listen_range target_range : ℤ → Text → ConfigError
  claimed_by_both : Forward → Text → Text → ConfigError

-- One round of the loop over the forwards of the landing node of that name. `claimed` has the
-- sockets with their owners.
unfoldable pub check_socket : Text → List (Text × Text) → Forward → Option ConfigError
check_socket name claimed f =
    if not (f.network == codes "tcp") && not (f.network == codes "udp")
    then some (ConfigError.neither_tcp_nor_udp f name)
    else if out_of_port_range f.listen_port
    then some (ConfigError.listen_range f.listen_port name)
    else if out_of_port_range f.target_port
    then some (ConfigError.target_range f.target_port name)
    else elim (find? (λ (e : Text × Text). e.0 == socket f) claimed) [
      | none ↦ none
      | some owner ↦ some (ConfigError.claimed_by_both f (owner.1) name)
    ]

-- The loop over the forwards; on success what is claimed after it.
unfoldable pub claim_sockets :
    Text → List (Text × Text) → List Forward → Result ConfigError (List (Text × Text))
claim_sockets name claimed [] = ok claimed
claim_sockets name claimed (f ∷ fs) =
    let rest = claim_sockets name ((socket f, name) ∷ claimed) fs in
    elim (check_socket name claimed f) [ none ↦ rest | some e ↦ err e ]

-- The tests of a landing node before its forwards.
unfoldable pub check_landing : List Text → Landing → Option ConfigError
check_landing seen l =
    if is_empty (trim_space l.node_id)
    then some ConfigError.no_node_id
    else if contains seen l.node_id
    then some (ConfigError.repeated_landing l.node_id)
    else if is_empty (trim_space l.host)
    then some (ConfigError.no_host (display_name l))
    else if is_empty l.forwards
    then some (ConfigError.no_forward (display_name l))
    else none

unfoldable pub check_landings : List (Text × Text) → List Text → List Landing → Option ConfigError
check_landings claimed seen [] = none
check_landings claimed seen (l ∷ ls) = elim (check_landing seen l) [
  | some e ↦ some e
  | none ↦ elim (claim_sockets (display_name l) claimed l.forwards) [
    | err e ↦ some e
    | ok after ↦ check_landings after (l.node_id ∷ seen) ls
  ]
]

-- `Config.Validate`
unfoldable pub validate_config : Config → Option ConfigError
validate_config cfg = check_landings [] [] cfg.landings
