-- ===== src/State/Pair.antt =====
-- internal/state/store.go: `writeFilePair`. Each call into the operating system succeeds or fails
-- as a field of `Faults` says; the staged siblings are removed on every return and are not state.
pub mod Safety
use singbox_deploy.Common.{Text, Bool, Option, none, some, if◌then◌else◌}

-- The two files, and the snapshot of the first one if it was kept.
pub record Files : Type 0 where
  pub a : Option Text
  pub b : Option Text
  pub kept : Option Text

-- `true` where the call succeeds.
pub record Faults : Type 0 where
  pub stage_a : Bool
  pub stage_b : Bool
  pub read_a : Bool
  pub stat_a : Bool
  pub stage_rollback : Bool
  pub rename_a : Bool
  pub rename_b : Bool
  pub rollback : Bool

pub data PairError : Type 0 where
  stage_failed read_failed rename_a_failed rename_b_failed restore_failed : PairError

-- The second rename, and the way back if it fails. `old_a` is what the first file held.
unfoldable pub commit_b : Faults → Option Text → Text → Files → Option PairError × Files
commit_b faults old_a b_data files =
    if faults.rename_b
    then (none, record files { b = some b_data })
    else if faults.rollback
    then (some rename_b_failed, record files { a = old_a })
    else (some restore_failed, record files { kept = old_a })

unfoldable pub rename_both : Faults → Text → Text → Files → Option PairError × Files
unfolding commit_b
rename_both faults a_data b_data files =
    if faults.rename_a
    then commit_b faults files.a b_data (record files { a = some a_data })
    else (some rename_a_failed, files)

-- The snapshot is staged only if there is a first file to keep.
unfoldable pub snapshot : Faults → Option Text → Option PairError
snapshot faults none = if faults.read_a then none else some read_failed
snapshot faults (some old) =
    if faults.read_a
    then (if faults.stat_a
        then (if faults.stage_rollback then none else some stage_failed)
        else some read_failed)
    else some read_failed

unfoldable pub write_file_pair : Faults → Text → Text → Files → Option PairError × Files
unfolding rename_both snapshot
write_file_pair faults a_data b_data files =
    if faults.stage_a
    then (if faults.stage_b
        then elim (snapshot faults files.a) [
          | none ↦ rename_both faults a_data b_data files
          | some e ↦ (some e, files)
        ]
        else (some stage_failed, files))
    else (some stage_failed, files)
