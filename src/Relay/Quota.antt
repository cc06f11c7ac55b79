-- ===== src/Relay/Quota.antt =====
-- internal/relay/quota.go: the quota stops and starts sing-box together with the relay's rules.
use singbox_deploy.Common.{
  Bool, true, false, none, some, List, ◌≡◌, ap, ◌∙◌, arith, if◌then◌else◌, All,
}
use singbox_deploy.Monitor.Enforce
use singbox_deploy.Monitor.Enforce.{Call, start_service, stop_service}
use singbox_deploy.Relay.{Config, forwards_nothing, validate_config}
use singbox_deploy.Relay.Rules.{ResolvedLanding}
use singbox_deploy.Relay.Dispatch.{Forwards, landings_of}
use singbox_deploy.Relay.Applier.{World, Host, Stored}
use singbox_deploy.Relay.Apply.{suspend_job, resume_job}
use singbox_deploy.Relay.Installed.{IsAddressed}
use singbox_deploy.Relay.Works.{Works, AllResolve, resume_job-suspend_job}

-- sing-box with the quota's marker, and the relay.
pub record QuotaWorld : Type 0 where
  pub service : Enforce.World
  pub relay : World

-- `Stop`; the error of the relay is logged.
unfoldable pub quota_stop : Bool → Host → Call → QuotaWorld → Bool × QuotaWorld
quota_stop has_applier host call w =
    let relay = if has_applier then (suspend_job host w.relay).1 else w.relay in
    let stopped = stop_service call w.service in
    (stopped.0, record { service = stopped.1; relay = relay })

-- `Start`
unfoldable pub quota_start : Bool → Host → Call → QuotaWorld → Bool × QuotaWorld
quota_start has_applier host call w =
    let relay = if has_applier then (resume_job host w.relay).1 else w.relay in
    let started = start_service call w.service in
    (started.0, record { service = started.1; relay = relay })

-- On a node that stores a job which `Validate` accepts and which forwards something, where every
-- call of the relay succeeds and every landing node has an address, and so do the stop and the start
-- of sing-box: `Stop` reports success and leaves sing-box inactive and the relay without rules and
-- otherwise as it was, and `Start` then reports success and leaves sing-box active and rules for
-- every landing node of the job, each at its address, that forward its mappings.
pub quota_start-quota_stop :
    (host : Host) (works : Works host) (cfg : Config) (call : Call) (w : QuotaWorld)
    → w.relay.stored ≡ Stored.job cfg
    → forwards_nothing cfg.landings ≡ false
    → validate_config cfg ≡ none
    → AllResolve host cfg.landings
    → call.succeeds ≡ true
    → ((quota_stop true host call w).0 ≡ true)
      × ((quota_stop true host call w).1.service.active ≡ false)
      × ((quota_stop true host call w).1.relay ≡ record (w.relay) { rules = none })
      × ((quota_start true host call ((quota_stop true host call w).1)).0 ≡ true)
      × ((quota_start true host call ((quota_stop true host call w).1)).1.service.active ≡ true)
      × (rs : List ResolvedLanding) × ((quota_start true host call
            ((quota_stop true host call w).1)).1.relay.rules
          ≡ some rs)
      × (landings_of rs ≡ cfg.landings)
      × All (IsAddressed host) rs
      × Forwards rs
unfolding quota_stop quota_start start_service stop_service
quota_start-quota_stop host works cfg call w stored some_forward valid resolve succeeds =
    let r = resume_job-suspend_job host works cfg (w.relay) stored some_forward valid resolve in
    let gone : (suspend_job host w.relay).1 ≡ record (w.relay) { rules = none } =
      ap (λ x. x.1) (r.0) in
    (
      succeeds,
      ground (arith, succeeds),
      gone,
      succeeds,
      ground (arith, succeeds),
      r.2,
      ap (λ v. ((resume_job host v).1).rules) gone ∙ r.3,
      r.4,
      r.5,
      r.6,
    )
