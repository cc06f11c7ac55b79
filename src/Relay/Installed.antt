-- ===== src/Relay/Installed.antt =====
-- What `Apply`, `Suspend` and `Resume` leave when they report no error, and when they do not fail.
use mathlib.Core.Path.{subst}
use singbox_deploy.Common.{
  All, sym, Text, true, false, ◌||◌, none, some, List, [], ◌∷◌, ◌++◌, ◌≡◌, ◌∙◌, refl, inl, inr,
  arith, Bool-cases, Option-cases, Result-cases, is_empty, is_empty_iff,
}
use singbox_deploy.Relay.{Landing, Config, forwards_nothing, validate_config}
use singbox_deploy.Relay.Validity.{IsConfig, validate_config_iff}
use singbox_deploy.Relay.Rules.{ResolvedLanding}
use singbox_deploy.Relay.Dispatch.{Forwards, Forwards-of_apart, landings_of}
use singbox_deploy.Relay.Applier.{
  World, Host, Stored, ApplyError, load_job, save_job, run_all, withdraw_firewall, grant_firewall,
  load_rules, sysctl, landing_address, resolve_landings, install_resolved, install, install_unit,
}
use singbox_deploy.Relay.Apply.{replace_job, apply_job}
use singbox_deploy.Relay.Effects.{
  unit_commands, run_all-Same, install-stored, install_unit-stored, save_job-cases, run_all-Same,
  withdraw_firewall-Same, grant_firewall-Same, install-stored, install_unit-stored, unit_commands,
  save_job-cases,
}

-- Where every landing node has an address, they are all there.
all_resolved :
    (host : Host) (ls : List Landing)
    → (resolve_landings host ls).0 ≡ []
    → landings_of ((resolve_landings host ls).1) ≡ ls
unfolding resolve_landings
all_resolved host [] h = refl
all_resolved host (l ∷ ls) h = elim (Option-cases (landing_address host l)) [
  | inl e ↦ absurd (ground (arith, e))
  | inr (ip, e) ↦ let rest = all_resolved host ls in ground (arith, e, rest)
]

-- Each of them with its own address.
abbrev pub IsAddressed : Host → ResolvedLanding → Type 0
IsAddressed host r = landing_address host r.landing ≡ some r.ip

resolve_landings-none :
    (host : Host) (l : Landing) (ls : List Landing)
    → landing_address host l ≡ none
    → (resolve_landings host (l ∷ ls)).1 ≡ (resolve_landings host ls).1
unfolding resolve_landings
resolve_landings-none host l ls e = ground (arith, e)

resolve_landings-some :
    (host : Host) (l : Landing) (ls : List Landing) (ip : Text)
    → landing_address host l ≡ some ip
    → (resolve_landings host (l ∷ ls)).1
      ≡ record { landing = l; ip = ip } ∷ (resolve_landings host ls).1
unfolding resolve_landings
resolve_landings-some host l ls ip e = ground (arith, e)

resolve_landings-IsAddressed :
    (host : Host) (ls : List Landing) → All (IsAddressed host) ((resolve_landings host ls).1)
unfolding resolve_landings
resolve_landings-IsAddressed host [] = tt
resolve_landings-IsAddressed host (l ∷ ls) = elim (Option-cases (landing_address host l)) [
  | inl e ↦
      subst (All (IsAddressed host)) (sym (resolve_landings-none host l ls e))
        (resolve_landings-IsAddressed host ls)
  | inr (ip, e) ↦
      subst (All (IsAddressed host)) (sym (resolve_landings-some host l ls ip e))
        ((e, resolve_landings-IsAddressed host ls))
]

append_none {ℓ} : {A : Type ℓ} (xs ys : List A) → xs ++ ys ≡ [] → (xs ≡ []) × (ys ≡ [])
append_none [] ys h = (refl, h)
append_none (x ∷ xs) ys h = absurd (ground arith)

install_resolved-rules :
    (host : Host) (errors : List ApplyError) (rs : List ResolvedLanding) (w : World)
    → (install_resolved host errors rs w).0 ≡ []
    → (errors ≡ []) × (((install_resolved host errors rs w).1).rules ≡ some rs)
unfolding install_resolved load_rules
install_resolved-rules host errors rs w h =
    let loaded = load_rules host (some rs) w in
    let v = (run_all host (sysctl ∷ []) loaded).1 in
    let forwarding = run_all-Same host (sysctl ∷ []) loaded in
    let granted = grant_firewall-Same host rs v in
    let g = grant_firewall host rs v in
    ground (
      arith,
      forwarding,
      granted,
      append_none errors (ApplyError.none_resolved ∷ []),
      append_none errors (ApplyError.load_failed ∷ []),
      append_none errors (ApplyError.forwarding_off ∷ []),
      append_none errors (g.0),
    )

pub install-Forwards :
    (host : Host) (cfg : Config) (w : World)
    → IsConfig cfg
    → (install host cfg w).0 ≡ []
    → (rs : List ResolvedLanding) × (((install host cfg w).1).rules ≡ some rs)
      × (landings_of rs ≡ cfg.landings)
      × All (IsAddressed host) rs
      × Forwards rs
unfolding install
install-Forwards host cfg w valid h =
    let r = resolve_landings host cfg.landings in
    let (no_errors, loaded) = install_resolved-rules host (r.0) (r.1) w h in
    let same = all_resolved host cfg.landings no_errors in
    (
      r.1,
      loaded,
      same,
      resolve_landings-IsAddressed host cfg.landings,
      Forwards-of_apart (r.1) (rw same valid.apart),
    )

install_unit-has_unit :
    (host : Host) (w : World)
    → (install_unit host w).0 ≡ []
    → ((install_unit host w).1).has_unit ≡ true
unfolding install_unit
install_unit-has_unit host w h =
    let written = record w {
      has_unit = host.write_unit.succeeds || host.write_unit.leaves || w.has_unit;
    } in
    let r = run_all-Same host unit_commands written in ground (arith, r)

-- What a node that relays a job has.
pub record Relaying (host : Host) (cfg : Config) (w : World) : Type 0 where
  pub stored : w.stored ≡ Stored.job cfg
  pub has_unit : w.has_unit ≡ true
  pub rules :
      (rs : List ResolvedLanding) × (w.rules ≡ some rs)
      × (landings_of rs ≡ cfg.landings)
      × All (IsAddressed host) rs
      × Forwards rs

replace_job-Relaying :
    (host : Host) (previous cfg : Config) (w : World)
    → forwards_nothing cfg.landings ≡ false
    → validate_config cfg ≡ none
    → (replace_job host previous cfg w).0 ≡ []
    → Relaying host cfg ((replace_job host previous cfg w).1)
unfolding replace_job
replace_job-Relaying host previous cfg w some_forward valid h =
    let saved = save_job host cfg w in
    let v = withdraw_firewall host previous saved.1 in
    let installed = install host cfg v in
    elim (Bool-cases (is_empty (saved.0))) [
      | inr e ↦ absurd (ground (arith, is_empty_iff (saved.0)))
      | inl e ↦ elim (Bool-cases (is_empty (installed.0))) [
        | inr f ↦ absurd (ground (arith, is_empty_iff (installed.0)))
        | inl f ↦
            let no_error = (is_empty_iff (installed.0)).0 f in
            let last : (install_unit host installed.1).0 ≡ [] = ground arith in
            let (stored, rules) = install_unit-stored host installed.1 in
            let (rs, loaded, same, addressed, forwards) =
              install-Forwards host cfg v ((validate_config_iff cfg).0 valid) no_error in
            let written : saved.1.stored ≡ Stored.job cfg =
              ground (arith, save_job-cases host cfg w some_forward valid) in
            rw (e, f)
              (record {
                stored =
                    stored
                    ∙ install-stored host cfg v
                    ∙ (withdraw_firewall-Same host previous saved.1).0
                    ∙ written;
                has_unit = install_unit-has_unit host installed.1 last;
                rules = (rs, rules ∙ loaded, same, addressed, forwards);
              })
      ]
    ]

-- Where `Apply` of a job that forwards something reports no error, the job is stored, the unit
-- file is there, and the rules in the kernel were made of every landing node of the job,
-- each with the address that `landingAddress` gives for it: a packet to the transport and port of a
-- mapping matches first the rule that sends it to the address and the target port of that mapping,
-- a packet to any other socket matches none, and the rules that rewrite the source are those of
-- the rewritten flows, in order.
pub apply_job-Relaying :
    (host : Host) (cfg : Config) (w : World)
    → forwards_nothing cfg.landings ≡ false
    → (apply_job host cfg w).0 ≡ []
    → Relaying host cfg ((apply_job host cfg w).1)
unfolding apply_job
apply_job-Relaying host cfg w some_forward h = elim (Option-cases (validate_config cfg)) [
  | inr (x, g) ↦ absurd (ground arith)
  | inl g ↦ elim (Result-cases (load_job host w)) [
    | inr (x, e) ↦ absurd (ground arith)
    | inl (previous, e) ↦
        rw (some_forward, g, e)
          (replace_job-Relaying host previous cfg w some_forward g (ground arith))
  ]
]
