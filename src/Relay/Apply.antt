-- ===== src/Relay/Apply.antt =====
-- internal/relay/apply.go: the operations of the `Applier`, and runs of them.
use singbox_deploy.Common.{none, some, List, [], ◌∷◌, ◌++◌, ok, err, is_empty, not, if◌then◌else◌}
use singbox_deploy.Relay.{Config, forwards_nothing, validate_config}
use singbox_deploy.Relay.Applier.{
  World, Host, ApplyError, empty_config, load_job, save_job, withdraw_firewall, clear_rules,
  install, install_unit, remove_unit,
}

-- `Clear`
unfoldable pub clear_job : Host → World → List ApplyError × World
clear_job host w =
    let load_errors : List ApplyError = elim (load_job host w) [
      | ok previous ↦ []
      | err e ↦ e ∷ []
    ] in
    let withdrawn : World = elim (load_job host w) [
      | ok previous ↦ withdraw_firewall host previous w
      | err e ↦ w
    ] in
    let cleared = clear_rules host withdrawn in
    let removed = remove_unit host cleared.1 in
    let saved = save_job host empty_config removed.1 in
    if not (is_empty cleared.0)
    then (load_errors ++ cleared.0, cleared.1)
    else if not (is_empty removed.0)
    then (load_errors ++ removed.0, removed.1)
    else (load_errors ++ saved.0, saved.1)

-- `Apply` after the tests of the job, with the job that was stored.
unfoldable pub replace_job : Host → Config → Config → World → List ApplyError × World
replace_job host previous cfg w =
    let saved = save_job host cfg w in
    let installed = install host cfg (withdraw_firewall host previous saved.1) in
    if not (is_empty saved.0)
    then saved
    else if not (is_empty installed.0)
    then installed
    else install_unit host installed.1

-- `Apply`
unfoldable pub apply_job : Host → Config → World → List ApplyError × World
apply_job host cfg w =
    if forwards_nothing cfg.landings then clear_job host w else elim (validate_config cfg) [
      | some e ↦ (ApplyError.invalid e ∷ [], w)
      | none ↦ elim (load_job host w) [
        | err e ↦ (e ∷ [], w)
        | ok previous ↦ replace_job host previous cfg w
      ]
    ]

-- `Reapply`, which the unit runs at boot.
unfoldable pub reapply_job : Host → World → List ApplyError × World
reapply_job host w = elim (load_job host w) [
  | err e ↦ (e ∷ [], w)
  | ok cfg ↦
      if forwards_nothing cfg.landings then clear_rules host w else elim (validate_config cfg) [
        | some e ↦ (ApplyError.invalid e ∷ [], w)
        | none ↦ install host cfg w
      ]
]

-- `Suspend`, when the quota is used up.
unfoldable pub suspend_job : Host → World → List ApplyError × World
suspend_job host w = elim (load_job host w) [
  | err e ↦ (e ∷ [], w)
  | ok cfg ↦ if forwards_nothing cfg.landings then ([], w) else clear_rules host w
]

-- `Resume`
unfoldable pub resume_job : Host → World → List ApplyError × World
resume_job host w = elim (load_job host w) [
  | err e ↦ (e ∷ [], w)
  | ok cfg ↦ if forwards_nothing cfg.landings then ([], w) else elim (validate_config cfg) [
    | some e ↦ (ApplyError.invalid e ∷ [], w)
    | none ↦ install host cfg w
  ]
]

pub data Op : Type 0 where
  apply : Config → Op
  reapply suspend resume clear : Op

unfoldable pub run_op : Host → Op → World → List ApplyError × World
run_op host (apply cfg) w = apply_job host cfg w
run_op host reapply w = reapply_job host w
run_op host suspend w = suspend_job host w
run_op host resume w = resume_job host w
run_op host clear w = clear_job host w

-- A run of operations, each in an environment of its own, without regard to their errors.
unfoldable pub run_ops : List (Host × Op) → World → World
run_ops [] w = w
run_ops (step ∷ steps) w = run_ops steps ((run_op step.0 step.1 w).1)
