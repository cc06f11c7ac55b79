-- ===== src/Relay/Readers.antt =====
-- internal/relay/relay.go and probe.go: what the monitor reads from the stored job.
use singbox_deploy.Common.{
  Text, codes, nat_eq, text_eq, int_eq, ◌==◌, Bool, not, ◌||◌, List, [], ◌∷◌, ◌++◌, contains,
  is_empty, trim_space, to_lower, if◌then◌else◌, ℤ, out_of_port_range, ok, err,
}
use singbox_deploy.Relay.{Forward, Landing, display_name}
use singbox_deploy.Relay.Rules.{int_ltb, text_ltb}
use singbox_deploy.Relay.Applier.{World, Host, load_job}

-- `monitor.RelayForward`
pub record RelayForward : Type 0 where
  pub listen_port : ℤ
  pub landing_id : Text
  pub landing_name : Text

-- The inner loop: the mappings of one landing node with a port in range.
unfoldable pub landing_forwards : Landing → List Forward → List RelayForward
landing_forwards l [] = []
landing_forwards l (f ∷ fs) =
    let rest = landing_forwards l fs in
    if out_of_port_range f.listen_port
    then rest
    else record {
      listen_port = f.listen_port;
      landing_id = l.node_id;
      landing_name = display_name l;
    }
      ∷ rest

unfoldable pub all_forwards : List Landing → List RelayForward
all_forwards [] = []
all_forwards (l ∷ ls) = landing_forwards l l.forwards ++ all_forwards ls

unfoldable pub metered_before : RelayForward → RelayForward → Bool
metered_before a b =
    if not (a.listen_port == b.listen_port)
    then int_ltb a.listen_port b.listen_port
    else text_ltb a.landing_id b.landing_id

unfoldable pub insert_metered : RelayForward → List RelayForward → List RelayForward
insert_metered f [] = f ∷ []
insert_metered f (g ∷ gs) =
    let rest = insert_metered f gs in if metered_before g f then g ∷ rest else f ∷ g ∷ gs

unfoldable pub sorted_metered : List RelayForward → List RelayForward
sorted_metered [] = []
sorted_metered (f ∷ fs) = insert_metered f (sorted_metered fs)

-- `MonitorForwards`
unfoldable pub monitor_forwards : Host → World → List RelayForward
monitor_forwards host w = elim (load_job host w) [
  | err e ↦ []
  | ok cfg ↦ sorted_metered (all_forwards cfg.landings)
]

-- `monitor.PingTarget`
pub record PingTarget : Type 0 where
  pub id : Text
  pub kind : Text
  pub name : Text
  pub address : Text

unfoldable pub ping_target_id : Text → Text
ping_target_id node_id = codes "relay:" ++ to_lower (trim_space node_id)

-- `net.JoinHostPort(host, "443")`
unfoldable pub join_probe_port : Text → Text
join_probe_port host =
    if contains host b':' then codes "[" ++ host ++ codes "]:443" else host ++ codes ":443"

unfoldable pub landing_targets : List Landing → List PingTarget
landing_targets [] = []
landing_targets (l ∷ ls) =
    let rest = landing_targets ls in
    if is_empty (trim_space l.host) || is_empty (trim_space l.node_id)
    then rest
    else record {
      id = ping_target_id l.node_id;
      kind = codes "relay";
      name = display_name l;
      address = join_probe_port (trim_space l.host);
    }
      ∷ rest

-- `PingTargets`
unfoldable pub ping_targets : Host → World → List PingTarget
ping_targets host w = elim (load_job host w) [ err e ↦ [] | ok cfg ↦ landing_targets cfg.landings ]
