-- ===== src/Relay/Works.antt =====
-- Where no call fails, `Apply` reports no error, and `Resume` brings back what `Suspend` withdrew.
use singbox_deploy.Common.{
  Text, true, false, ◌||◌, none, some, List, [], ◌∷◌, ◌++◌, ◌≡◌, ◌≢◌, refl, inl, inr, arith,
  Result-cases, ok, is_empty, All,
}
use singbox_deploy.Relay.{Landing, Config, forwards_nothing, validate_config}
use singbox_deploy.Relay.Validity.{validate_config_iff}
use singbox_deploy.Relay.Rules.{ResolvedLanding}
use singbox_deploy.Relay.Dispatch.{Forwards, landings_of}
use singbox_deploy.Relay.Firewall.{Command, grant_commands}
use singbox_deploy.Relay.Applier.{
  World, Host, Stored, load_job, save_job, run_all, withdraw_firewall, grant_firewall, clear_rules,
  load_rules, sysctl, landing_address, resolve_landings, install_resolved, install, install_unit,
}
use singbox_deploy.Relay.Apply.{replace_job, apply_job, suspend_job, resume_job}
use singbox_deploy.Relay.Effects.{unit_commands}
use singbox_deploy.Relay.Installed.{IsAddressed, install-Forwards}

-- Each call succeeds.
pub record Works (host : Host) : Type 0 where
  pub runs : (c : Command) → host.runs c ≡ true
  pub nft : host.nft.succeeds ≡ true
  pub readable : host.readable ≡ true
  pub save : host.save.succeeds ≡ true
  pub render : host.render ≡ true
  pub write_unit : host.write_unit.succeeds ≡ true

-- Every landing node has an address: one that the resolver knows, or the one that was recorded.
abbrev pub AllResolve : Host → List Landing → Type 0
AllResolve host = All (λ l. (ip : Text) × (landing_address host l ≡ some ip))

resolve_landings_works :
    (host : Host) (ls : List Landing)
    → AllResolve host ls
    → ((resolve_landings host ls).0 ≡ []) × (is_empty ls ≡ is_empty ((resolve_landings host ls).1))
unfolding resolve_landings
resolve_landings_works host [] h = (refl, refl)
resolve_landings_works host (l ∷ ls) h =
    let (ip, e) = h.0 in let rest = resolve_landings_works host ls h.1 in ground (arith, e, rest)

run_all-Works :
    (host : Host) (works : Works host) (cs : List Command) (w : World)
    → (run_all host cs w).0 ≡ none
unfolding run_all
run_all-Works host works [] w = refl
run_all-Works host works (c ∷ cs) w =
    rw (works.runs c) (run_all-Works host works cs (record w { commands = w.commands ++ c ∷ [] }))

grant_firewall-Works :
    (host : Host) (works : Works host) (rs : List ResolvedLanding) (w : World)
    → (grant_firewall host rs w).0 ≡ []
unfolding grant_firewall
grant_firewall-Works host works rs w =
    ground (arith, run_all-Works host works (grant_commands host.firewall rs) w)

some_landing : (ls : List Landing) → forwards_nothing ls ≡ false → is_empty ls ≡ false
unfolding forwards_nothing
some_landing [] h = absurd (ground arith)
some_landing (l ∷ ls) h = refl

install-Works :
    (host : Host) (works : Works host) (cfg : Config) (w : World)
    → forwards_nothing cfg.landings ≡ false
    → AllResolve host cfg.landings
    → (install host cfg w).0 ≡ []
unfolding install install_resolved
install-Works host works cfg w some_forward resolve =
    let r = resolve_landings host cfg.landings in
    let loaded = load_rules host (some r.1) w in
    let (no_errors, some_resolved) = resolve_landings_works host cfg.landings resolve in
    let forwarding = run_all-Works host works (sysctl ∷ []) loaded in
    let granted = grant_firewall-Works host works (r.1) ((run_all host (sysctl ∷ []) loaded).1) in
    ground (
      arith,
      no_errors,
      some_resolved,
      forwarding,
      granted,
      works.nft,
      some_landing cfg.landings some_forward,
    )

install_unit-Works : (host : Host) (works : Works host) (w : World) → (install_unit host w).0 ≡ []
unfolding install_unit
install_unit-Works host works w =
    let written = record w {
      has_unit = host.write_unit.succeeds || host.write_unit.leaves || w.has_unit;
    } in
    ground (arith, works.render, works.write_unit, run_all-Works host works unit_commands written)

save_job-Works :
    (host : Host) (works : Works host) (cfg : Config) (w : World)
    → validate_config cfg ≡ none
    → (save_job host cfg w).0 ≡ []
unfolding save_job
save_job-Works host works cfg w valid = ground (arith, works.save)

replace_job-Works :
    (host : Host) (works : Works host) (previous cfg : Config) (w : World)
    → forwards_nothing cfg.landings ≡ false
    → validate_config cfg ≡ none
    → AllResolve host cfg.landings
    → (replace_job host previous cfg w).0 ≡ []
unfolding replace_job
replace_job-Works host works previous cfg w some_forward valid resolve =
    let v = withdraw_firewall host previous ((save_job host cfg w).1) in
    rw (save_job-Works host works cfg w valid, install-Works host works cfg v some_forward resolve)
      (install_unit-Works host works ((install host cfg v).1))

load_job_parsed :
    (host : Host) (works : Works host) (w : World)
    → w.stored ≢ Stored.unparsable
    → (previous : Config) × (load_job host w ≡ ok previous)
unfolding load_job
load_job_parsed host works w parsed = elim (Result-cases (load_job host w)) [
  | inl (previous, e) ↦ (previous, e)
  | inr (x, e) ↦ absurd (ground (arith, works.readable))
]

load_job_stored :
    (host : Host) (works : Works host) (cfg : Config) (w : World)
    → w.stored ≡ Stored.job cfg
    → load_job host w ≡ ok cfg
unfolding load_job
load_job_stored host works cfg w stored = ground (arith, works.readable)

-- Where every call succeeds, the stored job can be parsed, every landing node has an address, and
-- the job is one that `Validate` accepts and forwards something, `Apply` reports no error.
pub apply_job-Works :
    (host : Host) (works : Works host) (cfg : Config) (w : World)
    → forwards_nothing cfg.landings ≡ false
    → validate_config cfg ≡ none
    → AllResolve host cfg.landings
    → w.stored ≢ Stored.unparsable
    → (apply_job host cfg w).0 ≡ []
unfolding apply_job
apply_job-Works host works cfg w some_forward valid resolve parsed =
    let (previous, loaded) = load_job_parsed host works w parsed in
    rw (some_forward, valid, loaded)
      (replace_job-Works host works previous cfg w some_forward valid resolve)

-- On a node that stores a job which `Validate` accepts and which forwards something, where every
-- call succeeds and every landing node has an address: `Suspend` withdraws the rules, reports no
-- error and changes nothing else, and `Resume` then reports no error and installs rules for every
-- landing node of the job, each at its address, that forward its mappings.
pub resume_job-suspend_job :
    (host : Host) (works : Works host) (cfg : Config) (w : World)
    → w.stored ≡ Stored.job cfg
    → forwards_nothing cfg.landings ≡ false
    → validate_config cfg ≡ none
    → AllResolve host cfg.landings
    → (suspend_job host w ≡ ([], record w { rules = none }))
      × ((resume_job host (record w { rules = none })).0 ≡ [])
      × (rs : List ResolvedLanding) × (((resume_job host (record w { rules = none })).1).rules
          ≡ some rs)
      × (landings_of rs ≡ cfg.landings)
      × All (IsAddressed host) rs
      × Forwards rs
unfolding suspend_job resume_job clear_rules load_rules
resume_job-suspend_job host works cfg w stored some_forward valid resolve =
    let v = record w { rules = none } in
    let before = load_job_stored host works cfg w stored in
    let after = load_job_stored host works cfg v stored in
    let no_error = install-Works host works cfg v some_forward resolve in
    let (rs, loaded, same, addressed, forwards) =
      install-Forwards host cfg v ((validate_config_iff cfg).0 valid) no_error in
    (
      rw (before, suspend_job) (rw (some_forward, works.nft) refl),
      rw (after, resume_job) (rw (some_forward, valid) no_error),
      rs,
      rw (after, resume_job) (rw (some_forward, valid) loaded),
      same,
      addressed,
      forwards,
    )
