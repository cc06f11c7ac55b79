-- ===== src/Relay/Remembered.antt =====
-- Whatever fails, the node forwards nothing that no stored job accounts for.
use singbox_deploy.Common.{
  false, none, List, [], ◌∷◌, ◌≡◌, ◌∙◌, ◌⊎◌, inl, inr, arith, Bool-cases, Option-cases,
  Result-cases, ok, is_empty,
}
use singbox_deploy.Relay.{Config, forwards_nothing, validate_config}
use singbox_deploy.Relay.Validity.{IsConfig, validate_config_iff}
use singbox_deploy.Relay.Applier.{World, Host, Stored, load_job, clear_rules, install, remove_unit}
use singbox_deploy.Relay.Apply.{
  clear_job, replace_job, apply_job, reapply_job, suspend_job, resume_job, Op, run_op, run_ops,
}
use singbox_deploy.Relay.Effects.{
  install-stored, remove_unit-stored, clear_rules-cases, replace_job-stored, replace_job_refused,
  save_job-cases, withdrawn, withdrawn-Same, save_job_empty, load_job-stored,
}

-- The file holds a job that `Validate` accepts and that forwards something, or there is no file;
-- and rules are in the kernel only if there is a file.
pub data Remembered : World → Type 0 where
  idle : (w : World) → w.stored ≡ Stored.absent → w.rules ≡ none → Remembered w
  relaying :
      (w : World) (cfg : Config)
      → w.stored ≡ Stored.job cfg
      → forwards_nothing cfg.landings ≡ false
      → IsConfig cfg
      → Remembered w

Remembered-kept :
    (v w : World) → v.stored ≡ w.stored → v.rules ≡ w.rules → Remembered w → Remembered v
Remembered-kept v w s r (idle _ h n) = Remembered.idle v (s ∙ h) (r ∙ n)
Remembered-kept v w s r (relaying _ cfg h some_forward valid) =
    Remembered.relaying v cfg (s ∙ h) some_forward valid

Remembered-cleared :
    (v w : World)
    → v.stored ≡ w.stored
    → (v.rules ≡ none) ⊎ (v.rules ≡ w.rules)
    → Remembered w
    → Remembered v
Remembered-cleared v w s (inl r) (idle _ h n) = Remembered.idle v (s ∙ h) r
Remembered-cleared v w s (inr r) (idle _ h n) = Remembered.idle v (s ∙ h) (r ∙ n)
Remembered-cleared v w s r (relaying _ cfg h some_forward valid) =
    Remembered.relaying v cfg (s ∙ h) some_forward valid

replace_job-Remembered :
    (host : Host) (previous cfg : Config) (w : World)
    → forwards_nothing cfg.landings ≡ false
    → validate_config cfg ≡ none
    → Remembered w
    → Remembered ((replace_job host previous cfg w).1)
replace_job-Remembered host previous cfg w some_forward valid h =
    elim (save_job-cases host cfg w some_forward valid) [
      | inl saved ↦
          Remembered.relaying _ cfg (replace_job-stored host previous cfg w saved) some_forward
            ((validate_config_iff cfg).0 valid)
      | inr (failed, s, r) ↦
          rw (replace_job_refused host previous cfg w failed) (Remembered-kept _ w s r h)
    ]

forgotten :
    (v w : World)
    → v.rules ≡ none
    → (v.stored ≡ Stored.absent) ⊎ (v.stored ≡ w.stored)
    → Remembered w
    → Remembered v
forgotten v w r (inl s) h = Remembered.idle v s r
forgotten v w r (inr s) h = Remembered-cleared v w s (inl r) h

clear_job-Remembered : (host : Host) (w : World) → Remembered w → Remembered ((clear_job host w).1)
unfolding clear_job withdrawn
clear_job-Remembered host w h =
    let v = withdrawn host w in
    let (s1, r1, u1) = withdrawn-Same host w in
    let (s2, r2, gone) = clear_rules-cases host v in
    let c = clear_rules host v in
    let (s3, r3) = remove_unit-stored host c.1 in
    let m = remove_unit host c.1 in
    let (r4, s4) = save_job_empty host m.1 in
    let h1 = Remembered-kept v w s1 r1 h in
    let h2 = Remembered-cleared c.1 v s2 r2 h1 in
    let h3 = Remembered-kept m.1 c.1 s3 r3 h2 in
    elim (Bool-cases (is_empty (c.0))) [
      | inr e ↦ rw e h2
      | inl e ↦ rw e (elim (Bool-cases (is_empty (m.0))) [
        | inr f ↦ rw f h3
        | inl f ↦ rw f (forgotten _ m.1 (r4 ∙ r3 ∙ gone e) s4 h3)
      ])
    ]

install-Remembered :
    (host : Host) (cfg : Config) (w : World)
    → load_job host w ≡ ok cfg
    → forwards_nothing cfg.landings ≡ false
    → validate_config cfg ≡ none
    → Remembered ((install host cfg w).1)
unfolding forwards_nothing
install-Remembered host cfg w loaded some_forward valid = elim (load_job-stored host w cfg loaded) [
  | inl s ↦
      Remembered.relaying _ cfg (install-stored host cfg w ∙ s) some_forward
        ((validate_config_iff cfg).0 valid)
  | inr none_left ↦ absurd (ground arith)
]

clear_rules-Remembered :
    (host : Host) (w : World) → Remembered w → Remembered ((clear_rules host w).1)
clear_rules-Remembered host w h =
    let (s, r, gone) = clear_rules-cases host w in
    Remembered-cleared ((clear_rules host w).1) w s r h

-- `Reapply`, `Suspend` and `Resume` read the job, and clear the table, install or do nothing.
resume_job-Remembered :
    (host : Host) (w : World) → Remembered w → Remembered ((resume_job host w).1)
unfolding resume_job
resume_job-Remembered host w h = elim (Result-cases (load_job host w)) [
  | inr (x, e) ↦ rw (e, resume_job) h
  | inl (cfg, e) ↦
      rw (e, resume_job)
        (elim (Bool-cases (forwards_nothing cfg.landings)) [
          | inl f ↦ rw f h
          | inr f ↦ rw f (elim (Option-cases (validate_config cfg)) [
            | inl g ↦ rw g (install-Remembered host cfg w e f g)
            | inr (x, g) ↦ rw g h
          ])
        ])
]

reapply_job-Remembered :
    (host : Host) (w : World) → Remembered w → Remembered ((reapply_job host w).1)
unfolding reapply_job
reapply_job-Remembered host w h = elim (Result-cases (load_job host w)) [
  | inr (x, e) ↦ rw (e, reapply_job) h
  | inl (cfg, e) ↦
      rw (e, reapply_job)
        (elim (Bool-cases (forwards_nothing cfg.landings)) [
          | inl f ↦ rw f (clear_rules-Remembered host w h)
          | inr f ↦ rw f (elim (Option-cases (validate_config cfg)) [
            | inl g ↦ rw g (install-Remembered host cfg w e f g)
            | inr (x, g) ↦ rw g h
          ])
        ])
]

suspend_job-Remembered :
    (host : Host) (w : World) → Remembered w → Remembered ((suspend_job host w).1)
unfolding suspend_job
suspend_job-Remembered host w h = elim (Result-cases (load_job host w)) [
  | inr (x, e) ↦ rw (e, suspend_job) h
  | inl (cfg, e) ↦
      rw (e, suspend_job)
        (elim (Bool-cases (forwards_nothing cfg.landings)) [
          | inl f ↦ rw f h
          | inr f ↦ rw f (clear_rules-Remembered host w h)
        ])
]

apply_job-Remembered :
    (host : Host) (cfg : Config) (w : World) → Remembered w → Remembered ((apply_job host cfg w).1)
unfolding apply_job
apply_job-Remembered host cfg w h = elim (Bool-cases (forwards_nothing cfg.landings)) [
  | inl f ↦ rw f (clear_job-Remembered host w h)
  | inr f ↦ rw f (elim (Option-cases (validate_config cfg)) [
    | inr (x, g) ↦ rw g h
    | inl g ↦ rw g (elim (Result-cases (load_job host w)) [
      | inr (x, e) ↦ rw e h
      | inl (previous, e) ↦ rw e (replace_job-Remembered host previous cfg w f g h)
    ])
  ])
]

run_op-Remembered :
    (host : Host) (op : Op) (w : World) → Remembered w → Remembered ((run_op host op w).1)
unfolding run_op
run_op-Remembered host (Op.apply cfg) w h = apply_job-Remembered host cfg w h
run_op-Remembered host Op.reapply w h = reapply_job-Remembered host w h
run_op-Remembered host Op.suspend w h = suspend_job-Remembered host w h
run_op-Remembered host Op.resume w h = resume_job-Remembered host w h
run_op-Remembered host Op.clear w h = clear_job-Remembered host w h

-- From a node where it holds, any run of `Apply`, `Reapply`, `Suspend`, `Resume` and `Clear`,
-- whatever call fails in whichever of them and with or without an effect, ends where no rule is in
-- the kernel's table unless a job is stored, and where the stored job, if there is one, forwards
-- something and is one that `Validate` accepts.
pub run_ops-Remembered :
    (steps : List (Host × Op)) (w : World) → Remembered w → Remembered (run_ops steps w)
unfolding run_ops
run_ops-Remembered [] w h = h
run_ops-Remembered (step ∷ steps) w h =
    run_ops-Remembered steps ((run_op step.0 step.1 w).1) (run_op-Remembered step.0 step.1 w h)
