-- ===== src/State/Entries/Safety.antt =====
-- No save loses a registry: what each call leaves on the disk, whatever fails.
use singbox_deploy.Common.{
  List, Option, none, some, ◌≡◌, ◌⊎◌, arith, Option-cases, Bool-cases, inl, inr, refl,
}
use singbox_deploy.State.Entries.{
  Fields, Tree, Disk, Faults, SaveError, stage_failed, remove_failed, restore_failed, stage_entries,
  commit_tree, save_entry_dirs,
}

-- The new tree is in place, and the error, if any, is about removing the old one.
abbrev pub Committed : Tree → Option SaveError × Disk → Type 0
Committed new r =
    (r.1.dir ≡ some new) × (r.1.staging ≡ none) × ((r.0 ≡ none) ⊎ (r.0 ≡ some remove_failed))

-- The save failed and the registry is as it was.
abbrev pub Kept : Disk → Option SaveError × Disk → Type 0
Kept d r = (e : SaveError) × (r.0 ≡ some e) × (r.1.dir ≡ d.dir) × (r.1.backup ≡ d.backup)

-- The old tree could not be moved back: it is the backup, which is kept.
abbrev pub Aside : Disk → Option SaveError × Disk → Type 0
Aside d r = (r.0 ≡ some restore_failed) × (r.1.dir ≡ none) × (r.1.backup ≡ d.dir)

commit_tree_safe :
    (faults : Faults) (t : Tree) (d : Disk)
    → d.backup ≡ none
    → Committed t (commit_tree faults (record d { staging = some t }))
      ⊎ (Kept d (commit_tree faults (record d { staging = some t }))
          ⊎ Aside d (commit_tree faults (record d { staging = some t })))
unfolding commit_tree
commit_tree_safe faults t d clean = ground arith

-- From a disk with no leftover, a save leaves the staged tree in place, or an error and the old
-- tree in place, or the restoration error and the old tree as the backup: the old tree is lost
-- only where the new one stands.
pub save_entry_dirs_safe :
    (faults : Faults) (items : List Fields) (d : Disk)
    → d.backup ≡ none
    → ((t : Tree) × (stage_entries 1 items ≡ some t) × Committed t (save_entry_dirs faults items d))
      ⊎ (Kept d (save_entry_dirs faults items d) ⊎ Aside d (save_entry_dirs faults items d))
unfolding save_entry_dirs
save_entry_dirs_safe faults items d clean = elim (Option-cases (stage_entries 1 items)) [
  | inl bad ↦ rw (bad, save_entry_dirs) (inr (inl (stage_failed, refl, refl, refl)))
  | inr (t, staged) ↦ elim (Bool-cases faults.stage) [
    | inl done ↦
        rw (staged, done, save_entry_dirs)
          (elim (commit_tree_safe faults t d clean) [ inl c ↦ inl (t, refl, c) | inr r ↦ inr r ])
    | inr failed ↦ rw (staged, failed, save_entry_dirs) (inr (inl (stage_failed, refl, refl, refl)))
  ]
]
