-- ===== src/State/Entries/Load.antt =====
-- What a load returns, and when it is all that stands on the disk.
use singbox_deploy.Common.{
  Text, true, [], ◌∷◌, map, ◌≡◌, ◌⊎◌, inl, inr, refl, arith, Bool-cases, Option-cases, ok, err,
}
use singbox_deploy.State.Entries.{
  Fields, Tree, Disk, Faults, LoadError, lock_failed, list_failed, readable, read_entries,
  sort_entries, stored_entries, load_entry_dirs,
}

-- Every read of a field file succeeds.
abbrev pub AllRead : Faults → Type 0
AllRead faults = (entry field : Text) → faults.reads entry field ≡ true

readable_all :
    (faults : Faults) (entry : Text) (fields : Fields)
    → AllRead faults
    → readable (faults.reads entry) fields ≡ fields
unfolding readable
readable_all faults entry [] all = refl
readable_all faults entry ((n, v) ∷ fields) all =
    let rest = readable_all faults entry fields all in rw (all entry n, rest) refl

read_entries_all :
    (faults : Faults) (t : Tree)
    → AllRead faults
    → read_entries faults.reads t ≡ map (λ (e : Text × Fields). e.1) t
unfolding read_entries
read_entries_all faults [] all = refl
read_entries_all faults ((n, fields) ∷ t) all =
    rw (readable_all faults n fields all, read_entries_all faults t all) refl

-- A load that can read every field file fails, or returns what stands on the disk.
pub load_entry_dirs-cases :
    (faults : Faults) (d : Disk)
    → AllRead faults
    → (load_entry_dirs faults d ≡ ok (stored_entries d))
      ⊎ ((e : LoadError) × (load_entry_dirs faults d ≡ err e))
unfolding load_entry_dirs stored_entries
load_entry_dirs-cases faults d all = elim (Bool-cases faults.lock) [
  | inr no_lock ↦ inr (lock_failed, ground (arith, no_lock))
  | inl lock ↦ elim (Bool-cases faults.list) [
    | inr no_list ↦ inr (list_failed, ground (arith, lock, no_list))
    | inl list ↦ elim (Option-cases d.dir) [
      | inl absent ↦ inl (ground (arith, lock, list, absent))
      | inr (t, there) ↦
          inl (ground (arith, lock, list, there, read_entries_all faults (sort_entries t) all))
    ]
  ]
]
