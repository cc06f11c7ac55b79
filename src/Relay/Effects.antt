-- ===== src/Relay/Effects.antt =====
-- What each call of the `Applier` leaves of the job's file, the table and the unit.
use singbox_deploy.Common.{
  true, false, not, ◌&&◌, ◌||◌, codes, none, some, List, [], ◌∷◌, ◌++◌, ◌≡◌, ◌⊎◌, refl, inl, inr,
  arith, Bool-cases, Result-cases, ok, err, is_empty,
}
use singbox_deploy.Relay.{Config, forwards_nothing, validate_config}
use singbox_deploy.Relay.Rules.{ResolvedLanding}
use singbox_deploy.Relay.Firewall.{Command, grant_commands}
use singbox_deploy.Relay.Applier.{
  World, Host, Stored, empty_config, load_job, save_job, run_all, run_each, withdraw_firewall,
  grant_firewall, clear_rules, load_rules, sysctl, systemctl, relay_service, install,
  install_resolved, resolve_landings, install_unit, remove_unit,
}
use singbox_deploy.Relay.Apply.{replace_job}

-- Commands change no more than the commands.
abbrev pub Same : World → World → Type 0
Same v w = (v.stored ≡ w.stored) × (v.rules ≡ w.rules) × (v.has_unit ≡ w.has_unit)

pub run_all-Same : (host : Host) (cs : List Command) (w : World) → Same ((run_all host cs w).1) w
unfolding run_all
run_all-Same host [] w = (refl, refl, refl)
run_all-Same host (c ∷ cs) w = elim (Bool-cases (host.runs c)) [
  | inl e ↦ rw e (run_all-Same host cs (record w { commands = w.commands ++ c ∷ [] }))
  | inr e ↦ rw e (refl, refl, refl)
]

pub withdraw_firewall-Same :
    (host : Host) (previous : Config) (w : World) → Same (withdraw_firewall host previous w) w
unfolding withdraw_firewall run_each
withdraw_firewall-Same host previous w = ground arith

pub grant_firewall-Same :
    (host : Host) (resolved : List ResolvedLanding) (w : World)
    → Same ((grant_firewall host resolved w).1) w
unfolding grant_firewall
grant_firewall-Same host resolved w =
    let r = run_all-Same host (grant_commands host.firewall resolved) w in ground (arith, r)

pub install-stored :
    (host : Host) (cfg : Config) (w : World) → ((install host cfg w).1).stored ≡ w.stored
unfolding install install_resolved load_rules
install-stored host cfg w =
    let r = resolve_landings host cfg.landings in
    let loaded = load_rules host (some r.1) w in
    let forwarding = run_all-Same host (sysctl ∷ []) loaded in
    let granted = grant_firewall-Same host r.1 ((run_all host (sysctl ∷ []) loaded).1) in
    ground (arith, forwarding, granted)

abbrev pub unit_commands : List Command
unit_commands =
    systemctl (codes "daemon-reload" ∷ []) ∷ systemctl (codes "enable" ∷ relay_service ∷ []) ∷ []

pub install_unit-stored :
    (host : Host) (w : World)
    → (((install_unit host w).1).stored ≡ w.stored) × (((install_unit host w).1).rules ≡ w.rules)
unfolding install_unit
install_unit-stored host w =
    let written = record w {
      has_unit = host.write_unit.succeeds || host.write_unit.leaves || w.has_unit;
    } in
    let r = run_all-Same host unit_commands written in ground (arith, r)

pub remove_unit-stored :
    (host : Host) (w : World)
    → (((remove_unit host w).1).stored ≡ w.stored) × (((remove_unit host w).1).rules ≡ w.rules)
unfolding remove_unit
remove_unit-stored host w =
    let cs = systemctl (codes "disable" ∷ codes "--now" ∷ relay_service ∷ []) ∷ [] in
    let r = run_all-Same host cs w in
    let disabled = run_all host cs w in
    let unlinked = record disabled.1 {
      has_unit = not host.remove_unit.succeeds && not host.remove_unit.leaves && w.has_unit;
    } in
    let s = run_all-Same host (systemctl (codes "daemon-reload" ∷ []) ∷ []) unlinked in
    ground (arith, r, s)

pub clear_rules-cases :
    (host : Host) (w : World)
    → (((clear_rules host w).1).stored ≡ w.stored)
      × ((((clear_rules host w).1).rules ≡ none) ⊎ (((clear_rules host w).1).rules ≡ w.rules))
      × (is_empty ((clear_rules host w).0) ≡ true → ((clear_rules host w).1).rules ≡ none)
unfolding clear_rules load_rules
clear_rules-cases host w = ground arith

-- Once the new job is in its file, nothing that follows changes that.
pub replace_job-stored :
    (host : Host) (previous cfg : Config) (w : World)
    → ((save_job host cfg w).1).stored ≡ Stored.job cfg
    → ((replace_job host previous cfg w).1).stored ≡ Stored.job cfg
unfolding replace_job
replace_job-stored host previous cfg w h =
    let s = (save_job host cfg w).1 in
    let v = withdraw_firewall host previous s in
    let withdrawn = withdraw_firewall-Same host previous s in
    let installed = install-stored host cfg v in
    let unit = (install_unit-stored host (install host cfg v).1).0 in
    ground (arith, withdrawn.0, installed, unit)

-- A call of `Save` that fails without an effect ends the replacement.
pub replace_job_refused :
    (host : Host) (previous cfg : Config) (w : World)
    → is_empty ((save_job host cfg w).0) ≡ false
    → replace_job host previous cfg w ≡ save_job host cfg w
unfolding replace_job
replace_job_refused host previous cfg w h = rw h refl

pub save_job-cases :
    (host : Host) (cfg : Config) (w : World)
    → forwards_nothing cfg.landings ≡ false
    → validate_config cfg ≡ none
    → (((save_job host cfg w).1).stored ≡ Stored.job cfg)
      ⊎ ((is_empty ((save_job host cfg w).0) ≡ false)
          × (((save_job host cfg w).1).stored ≡ w.stored)
          × (((save_job host cfg w).1).rules ≡ w.rules))
unfolding save_job
save_job-cases host cfg w some_forward valid = ground arith

-- What `Clear` has when it comes to the kernel's table.
unfoldable pub withdrawn : Host → World → World
withdrawn host w = elim (load_job host w) [
  | ok previous ↦ withdraw_firewall host previous w
  | err e ↦ w
]

pub withdrawn-Same : (host : Host) (w : World) → Same (withdrawn host w) w
unfolding withdrawn
withdrawn-Same host w = elim (Result-cases (load_job host w)) [
  | inl (previous, e) ↦ rw (e, withdrawn) (withdraw_firewall-Same host previous w)
  | inr (x, e) ↦ rw (e, withdrawn) (refl, refl, refl)
]

pub save_job_empty :
    (host : Host) (w : World)
    → (((save_job host empty_config w).1).rules ≡ w.rules)
      × ((((save_job host empty_config w).1).stored ≡ Stored.absent)
          ⊎ (((save_job host empty_config w).1).stored ≡ w.stored))
unfolding save_job forwards_nothing
save_job_empty host w = ground arith

pub load_job-stored :
    (host : Host) (w : World) (cfg : Config)
    → load_job host w ≡ ok cfg
    → (w.stored ≡ Stored.job cfg) ⊎ (cfg ≡ empty_config)
unfolding load_job
load_job-stored host w cfg h = ground arith
