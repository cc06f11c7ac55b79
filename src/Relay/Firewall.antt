-- ===== src/Relay/Firewall.antt =====
-- internal/system/firewall.go: the commands that open and close ports and forwarded flows, and what
-- internal/relay/relay.go and internal/relay/apply.go ask of it.
use singbox_deploy.Common.{
  Text, codes, text_eq, ◌==◌, Bool, true, false, not, ◌&&◌, ◌||◌, List, [], ◌∷◌, ◌++◌, map,
  is_empty, if◌then◌else◌, ltb, ℤ, pos, negsuc, itoa, trim_space,
}
use singbox_deploy.Relay.{Forward, Landing, Config, display_name}
use singbox_deploy.Relay.Rules.{ResolvedLanding, sorted_forwards}

-- `no_firewall` is `FirewallNone`.
pub data Firewall : Type 0 where
  ufw firewalld no_firewall : Firewall

pub record Port : Type 0 where
  pub number : ℤ
  pub proto : Text
  pub label : Text
  pub reachable : Bool

pub record ForwardRoute : Type 0 where
  pub proto : Text
  pub address : Text
  pub port : ℤ

pub record Command : Type 0 where
  pub name : Text
  pub args : List Text

-- `number <= 0`
abbrev is_unset : ℤ → Bool
is_unset (pos n) = not (ltb 0 n)
is_unset (negsuc n) = true

abbrev is_firewalld : Firewall → Bool
is_firewalld firewalld = true
is_firewalld _ = false

-- Permanent rules of firewalld take effect with a reload.
unfoldable pub with_reload : Firewall → List Command → List Command
with_reload f cmds =
    if is_firewalld f && not (is_empty cmds)
    then cmds ++ record { name = codes "firewall-cmd"; args = codes "--reload" ∷ [] } ∷ []
    else cmds

unfoldable pub port_command : Firewall → Bool → Text → List Command
port_command ufw remove spec =
    if remove
    then record { name = codes "ufw"; args = codes "delete" ∷ codes "allow" ∷ spec ∷ [] } ∷ []
    else record { name = codes "ufw"; args = codes "allow" ∷ spec ∷ [] } ∷ []
port_command firewalld remove spec =
    record {
      name = codes "firewall-cmd";
      args =
          ((if remove then codes "--remove-port=" else codes "--add-port=") ++ spec)
          ∷ codes "--permanent"
          ∷ [];
    }
    ∷ []
port_command no_firewall remove spec = []

-- The loop of `firewallPortCommands`.
unfoldable pub port_commands : Firewall → Bool → List Port → List Command
port_commands f remove [] = []
port_commands f remove (p ∷ ps) =
    let rest = port_commands f remove ps in
    if is_unset p.number
    then rest
    else port_command f remove (itoa p.number ++ codes "/" ++ p.proto) ++ rest

unfoldable pub firewall_port_commands : Firewall → Bool → List Port → List Command
firewall_port_commands f remove ports = with_reload f (port_commands f remove ports)

unfoldable pub route_command : Firewall → Bool → ForwardRoute → List Command
route_command ufw remove r =
    record {
      name = codes "ufw";
      args =
          codes "route"
          ∷ (if remove then codes "delete" else codes "allow")
          ∷ codes "proto"
          ∷ r.proto
          ∷ codes "from"
          ∷ codes "any"
          ∷ codes "to"
          ∷ r.address
          ∷ codes "port"
          ∷ itoa r.port
          ∷ [];
    }
    ∷ []
route_command firewalld remove r =
    record {
      name = codes "firewall-cmd";
      args =
          codes "--permanent"
          ∷ codes "--direct"
          ∷ (if remove then codes "--remove-rule" else codes "--add-rule")
          ∷ codes "ipv4"
          ∷ codes "filter"
          ∷ codes "FORWARD"
          ∷ codes "0"
          ∷ codes "-p"
          ∷ r.proto
          ∷ codes "-d"
          ∷ r.address
          ∷ codes "--dport"
          ∷ itoa r.port
          ∷ codes "-j"
          ∷ codes "ACCEPT"
          ∷ [];
    }
    ∷ []
route_command no_firewall remove r = []

-- The loop of `FirewallForwardCommands`.
unfoldable pub route_commands : Firewall → Bool → List ForwardRoute → List Command
route_commands f remove [] = []
route_commands f remove (r ∷ rs) =
    let rest = route_commands f remove rs in
    if is_unset r.port
      || is_empty r.address
      || (not (r.proto == codes "tcp") && not (r.proto == codes "udp"))
    then rest
    else route_command f remove r ++ rest

unfoldable pub firewall_forward_commands : Firewall → Bool → List ForwardRoute → List Command
firewall_forward_commands f remove routes = with_reload f (route_commands f remove routes)

-- `Config.ListenPorts`
unfoldable pub listen_ports : List Landing → List Port
listen_ports [] = []
listen_ports (l ∷ ls) =
    map
      (λ (f : Forward). record {
        number = f.listen_port;
        proto = f.network;
        label = codes "relay " ++ f.protocol ++ codes " to " ++ display_name l;
        reachable = false;
      })
      l.forwards
    ++ listen_ports ls

abbrev pub route_to : Text → Forward → ForwardRoute
route_to address f = record { proto = f.network; address = address; port = f.target_port }

unfoldable pub forward_routes : List ResolvedLanding → List ForwardRoute
forward_routes [] = []
forward_routes (r ∷ rs) =
    map (route_to r.ip) (sorted_forwards r.landing.forwards) ++ forward_routes rs

unfoldable pub previous_routes : List Landing → List ForwardRoute
previous_routes [] = []
previous_routes (l ∷ ls) =
    let rest = previous_routes ls in
    if is_empty (trim_space l.address)
    then rest
    else map (route_to (trim_space l.address)) (sorted_forwards l.forwards) ++ rest

-- `withdrawFirewall` and `grantFirewall`: the commands of each, in order.
unfoldable pub withdraw_commands : Firewall → Config → List Command
withdraw_commands f previous =
    firewall_port_commands f true (listen_ports previous.landings)
    ++ firewall_forward_commands f true (previous_routes previous.landings)

unfoldable pub grant_commands : Firewall → List ResolvedLanding → List Command
grant_commands f resolved =
    firewall_port_commands f false
      (listen_ports (map (λ (r : ResolvedLanding). r.landing) resolved))
    ++ firewall_forward_commands f false (forward_routes resolved)
