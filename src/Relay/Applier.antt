-- ===== src/Relay/Applier.antt =====
-- internal/relay/apply.go: what the `Applier` does to the node. A call that fails may still have
-- had its effect: `leaves` of `Call` says whether it had. `commands` has every command that was
-- issued to the host's firewall, sysctl and systemctl, in order.
use singbox_deploy.Common.{
  Text, codes, Bool, not, ◌&&◌, ◌||◌, Option, none, some, List, [], ◌∷◌, ◌++◌, is_empty, trim_space,
  if◌then◌else◌, Result, ok, err,
}
use singbox_deploy.Monitor.Enforce.{Call}
use singbox_deploy.Relay.{
  Landing, Config, ConfigError, forwards_nothing, display_name, validate_config,
}
use singbox_deploy.Relay.Rules.{ResolvedLanding}
use singbox_deploy.Relay.Firewall.{
  Firewall, ufw, firewalld, no_firewall, Command, withdraw_commands, grant_commands,
}

-- The file of the job.
pub data Stored : Type 0 where
  absent unparsable : Stored
  job : Config → Stored

-- The file, the rules of the table in the kernel, the unit file, and the commands.
pub record World : Type 0 where
  pub stored : Stored
  pub rules : Option (List ResolvedLanding)
  pub has_unit : Bool
  pub commands : List Command

-- What the environment of one operation does: the resolver and `To4` of a parsed address, and
-- whether each call succeeds.
pub record Host : Type 0 where
  pub firewall : Firewall
  pub resolve : Text → Option Text
  pub is_ipv4 : Text → Bool
  pub runs : Command → Bool
  pub nft : Call
  pub readable : Bool
  pub save : Call
  pub render : Bool
  pub stat : Bool
  pub write_unit : Call
  pub remove_unit : Call

pub data ApplyError : Type 0 where
  invalid : ConfigError → ApplyError
  unreadable unparsable save_failed : ApplyError
  unresolved : Text → Text → ApplyError
  none_resolved load_failed forwarding_off remove_failed : ApplyError
  rule_failed command_failed : Command → ApplyError
  render_failed write_failed stat_failed unlink_failed : ApplyError

abbrev pub sysctl : Command
sysctl = record { name = codes "sysctl"; args = codes "-w" ∷ codes "net.ipv4.ip_forward=1" ∷ [] }

abbrev pub systemctl : List Text → Command
systemctl args = record { name = codes "systemctl"; args = args }

-- `system.RelayService`
abbrev pub relay_service : Text
relay_service = codes "singbox-deploy-relay.service"

abbrev pub empty_config : Config
empty_config = record { landings = [] }

-- `Load`
unfoldable pub load_job : Host → World → Result ApplyError Config
load_job host w = if not host.readable then err ApplyError.unreadable else elim (w.stored) [
  | absent ↦ ok empty_config
  | unparsable ↦ err ApplyError.unparsable
  | job cfg ↦ ok cfg
]

abbrev store_as : Call → Stored → World → World
store_as call s w = record w { stored = if call.succeeds || call.leaves then s else w.stored }

-- `Save`
unfoldable pub save_job : Host → Config → World → List ApplyError × World
save_job host cfg w =
    if forwards_nothing cfg.landings
    then (
      (if host.save.succeeds then [] else ApplyError.save_failed ∷ []),
      store_as host.save Stored.absent w,
    )
    else elim (validate_config cfg) [
      | some e ↦ (ApplyError.invalid e ∷ [], w)
      | none ↦ (
        (if host.save.succeeds then [] else ApplyError.save_failed ∷ []),
        store_as host.save (Stored.job cfg) w,
      )
    ]

-- The loops over commands: until one fails, and through all of them.
unfoldable pub run_all : Host → List Command → World → Option Command × World
run_all host [] w = (none, w)
run_all host (c ∷ cs) w =
    let after = record w { commands = w.commands ++ c ∷ [] } in
    let rest = run_all host cs after in if host.runs c then rest else (some c, after)

unfoldable pub run_each : List Command → World → World
run_each cmds w = record w { commands = w.commands ++ cmds }

unfoldable pub withdraw_firewall : Host → Config → World → World
withdraw_firewall host previous w = elim (host.firewall) [
  | no_firewall ↦ w
  | ufw ↦
      if forwards_nothing previous.landings then w else run_each (withdraw_commands ufw previous) w
  | firewalld ↦
      if forwards_nothing previous.landings
      then w
      else run_each (withdraw_commands firewalld previous) w
]

unfoldable pub grant_firewall : Host → List ResolvedLanding → World → List ApplyError × World
grant_firewall host resolved w =
    let r = run_all host (grant_commands host.firewall resolved) w in
    elim (host.firewall) [
      | no_firewall ↦ ([], w)
      | _ ↦ elim (r.0) [ none ↦ ([], r.1) | some c ↦ (ApplyError.rule_failed c ∷ [], r.1) ]
    ]

unfoldable pub load_rules : Host → Option (List ResolvedLanding) → World → World
load_rules host rules w = record w {
  rules = if host.nft.succeeds || host.nft.leaves then rules else w.rules;
}

unfoldable pub clear_rules : Host → World → List ApplyError × World
clear_rules host w =
    ((if host.nft.succeeds then [] else ApplyError.remove_failed ∷ []), load_rules host none w)

-- `landingAddress`
unfoldable pub landing_address : Host → Landing → Option Text
landing_address host l = elim (host.resolve l.host) [
  | some ip ↦ some ip
  | none ↦
      if not (is_empty (trim_space l.address)) && host.is_ipv4 (trim_space l.address)
      then some (trim_space l.address)
      else none
]

-- The loop of `install`: the failures and the landing nodes that have an address.
unfoldable pub resolve_landings : Host → List Landing → List ApplyError × List ResolvedLanding
resolve_landings host [] = ([], [])
resolve_landings host (l ∷ ls) =
    let rest = resolve_landings host ls in
    elim (landing_address host l) [
      | none ↦ (ApplyError.unresolved (display_name l) l.host ∷ rest.0, rest.1)
      | some ip ↦ (rest.0, record { landing = l; ip = ip } ∷ rest.1)
    ]

-- The rest of `install`, with the errors of the loop.
unfoldable pub install_resolved :
    Host → List ApplyError → List ResolvedLanding → World → List ApplyError × World
install_resolved host errors resolved w =
    let loaded = load_rules host (some resolved) w in
    let forwarding = run_all host (sysctl ∷ []) loaded in
    let granted = grant_firewall host resolved forwarding.1 in
    if is_empty resolved
    then (errors ++ ApplyError.none_resolved ∷ [], w)
    else if not host.nft.succeeds
    then (errors ++ ApplyError.load_failed ∷ [], loaded)
    else elim (forwarding.0) [
      | some c ↦ (errors ++ ApplyError.forwarding_off ∷ [], forwarding.1)
      | none ↦ (errors ++ granted.0, granted.1)
    ]

unfoldable pub install : Host → Config → World → List ApplyError × World
install host cfg w = let r = resolve_landings host cfg.landings in install_resolved host r.0 r.1 w

abbrev failed : Option Command → List ApplyError
failed none = []
failed (some c) = ApplyError.command_failed c ∷ []

unfoldable pub install_unit : Host → World → List ApplyError × World
install_unit host w =
    let written = record w {
      has_unit = host.write_unit.succeeds || host.write_unit.leaves || w.has_unit;
    } in
    let r =
      run_all host
        (systemctl (codes "daemon-reload" ∷ [])
          ∷ systemctl (codes "enable" ∷ relay_service ∷ [])
          ∷ [])
        written in
    if not host.render
    then (ApplyError.render_failed ∷ [], w)
    else if not host.write_unit.succeeds
    then (ApplyError.write_failed ∷ [], written)
    else (failed r.0, r.1)

-- `removeUnit`; `stat` says whether the file can be looked at.
unfoldable pub remove_unit : Host → World → List ApplyError × World
remove_unit host w =
    let disabled =
      run_all host (systemctl (codes "disable" ∷ codes "--now" ∷ relay_service ∷ []) ∷ []) w in
    let unlinked = record disabled.1 {
      has_unit = not host.remove_unit.succeeds && not host.remove_unit.leaves && w.has_unit;
    } in
    let reloaded = run_all host (systemctl (codes "daemon-reload" ∷ []) ∷ []) unlinked in
    if not host.stat
    then (ApplyError.stat_failed ∷ [], w)
    else if not w.has_unit
    then ([], w)
    else elim (disabled.0) [
      | some c ↦ (ApplyError.command_failed c ∷ [], disabled.1)
      | none ↦
          if not host.remove_unit.succeeds
          then (ApplyError.unlink_failed ∷ [], unlinked)
          else (failed reloaded.0, reloaded.1)
    ]
