-- ===== src/State/Entries/Transact.antt =====
-- A transaction as its callers see it: what a later load reads.
use singbox_deploy.Common.{
  ◌≤◌, ◌≡◌, ap, ◌∙◌, List, map, length, length-map, map-map, none, Result, ok, err, arith,
  Result-cases, ◌⊎◌, inl, inr,
}
use singbox_deploy.State.Entries.{
  Fields, Disk, Faults, LoadError, stored_entries, load_entry_dirs, save_entry_dirs, transact,
}
use singbox_deploy.State.Entries.Load.{AllRead, load_entry_dirs-cases}
use singbox_deploy.State.Entries.Safety.{save_entry_dirs_safe}
use singbox_deploy.State.Entries.Order.{
  written, load-save_entry_dirs, load_of_staged, stored_entries-dir,
}

module _ {T : Type 0} (decode : Fields → T) (encode : T → Fields) where
  save_outcomes :
      (faults : Faults) (d : Disk) (next : List T)
      → d.backup ≡ none
      → (stored_entries (save_entry_dirs faults (map encode next) d).1 ≡ stored_entries d)
        ⊎ ((length next ≤ 999
              → map decode (stored_entries (save_entry_dirs faults (map encode next) d).1)
                ≡ map (λ x. decode (written (encode x))) next)
            ⊎ (((save_entry_dirs faults (map encode next) d).1.dir ≡ none)
                × ((save_entry_dirs faults (map encode next) d).1.backup ≡ d.dir)))
  save_outcomes faults d next clean = elim (save_entry_dirs_safe faults (map encode next) d clean) [
    | inl (t, staged, committed) ↦ inr (
        inl (λ few.
          ap (map decode) (
            load_of_staged (save_entry_dirs faults (map encode next) d).1 (map encode next)
              committed.0 staged (omega (arith, length-map next encode))
            ∙ map-map encode written next)
          ∙ map-map (λ x. written (encode x)) decode next))
    | inr (inl kept) ↦ inl (stored_entries-dir _ d kept.2)
    | inr (inr aside) ↦ inr (inr (aside.1, aside.2))
  ]

module _ {T E : Type 0} (decode : Fields → T) (encode : T → Fields) where
  -- The load succeeded, the value that `mutate` gave is saved, and the save reported no error.
  pub transact-ok :
      (faults : Faults) (mutate : List T → Result E (List T)) (d : Disk) {next : List T}
      → (transact decode encode faults mutate d).0 ≡ ok next
      → (fs : List Fields) × (load_entry_dirs faults d ≡ ok fs)
        × (mutate (map decode fs) ≡ ok next)
        × ((save_entry_dirs faults (map encode next) d).0 ≡ none)
        × ((transact decode encode faults mutate d).1
            ≡ (save_entry_dirs faults (map encode next) d).1)
  unfolding transact
  transact-ok faults mutate d {next} h = elim (Result-cases (load_entry_dirs faults d)) [
    | inr (e, bad) ↦ absurd (ground (arith, bad))
    | inl (fs, good) ↦ (fs, good, ground (arith, good), ground (arith, good), ground (arith, good))
  ]

  transact_saves :
      (faults : Faults) (mutate : List T → Result E (List T)) (d : Disk) {next : List T}
      {fs : List Fields}
      → load_entry_dirs faults d ≡ ok fs
      → mutate (map decode fs) ≡ ok next
      → (transact decode encode faults mutate d).1 ≡ (save_entry_dirs faults (map encode next) d).1
  unfolding transact
  transact_saves faults mutate d loads h = ground arith

  transact_refuses :
      (faults : Faults) (mutate : List T → Result E (List T)) (d : Disk) {e : E} {fs : List Fields}
      → load_entry_dirs faults d ≡ ok fs
      → mutate (map decode fs) ≡ err e
      → (transact decode encode faults mutate d).1 ≡ d
  unfolding transact
  transact_refuses faults mutate d loads h = ground arith

  transact_unloaded :
      (faults : Faults) (mutate : List T → Result E (List T)) (d : Disk) {e : LoadError}
      → load_entry_dirs faults d ≡ err e
      → (transact decode encode faults mutate d).1 ≡ d
  unfolding transact
  transact_unloaded faults mutate d h = ground arith

  -- After a transaction that reports no error and leaves at most 999 entries, a load in which no
  -- call fails gives the entries that the mutation gave for the loaded ones, in that order, each as
  -- its encoding reads.
  pub load-transact :
      (faults : Faults) (mutate : List T → Result E (List T)) (d : Disk) {next : List T}
      → (transact decode encode faults mutate d).0 ≡ ok next
      → length next ≤ 999
      → (fs : List Fields) × (load_entry_dirs faults d ≡ ok fs)
        × (mutate (map decode fs) ≡ ok next)
        × (map decode (stored_entries (transact decode encode faults mutate d).1)
            ≡ map (λ x. decode (written (encode x))) next)
  load-transact faults mutate d {next} h few =
      let (fs, loads, given, clean, disk) = transact-ok faults mutate d h in
      (
        fs,
        loads,
        given,
        rw
            (
              disk,
              load-save_entry_dirs faults (map encode next) d
                  (omega (arith, length-map next encode)) clean,
            )
            (ap (map decode) (map-map encode written next)
              ∙ map-map (λ x. written (encode x)) decode next),
      )

  -- Where every read of a field file succeeds, and whatever else fails, a transaction leaves a
  -- registry that a later load reads as before, or as the mutation gave it (where that is at most
  -- 999 entries), or it leaves no registry and the old one is the backup.
  pub transact_outcomes :
      (faults : Faults) (mutate : List T → Result E (List T)) (d : Disk)
      → AllRead faults
      → d.backup ≡ none
      → (stored_entries (transact decode encode faults mutate d).1 ≡ stored_entries d)
        ⊎ (((next : List T) × (mutate (map decode (stored_entries d)) ≡ ok next)
              × (length next ≤ 999
                  → map decode (stored_entries (transact decode encode faults mutate d).1)
                    ≡ map (λ x. decode (written (encode x))) next))
            ⊎ (((transact decode encode faults mutate d).1.dir ≡ none)
                × ((transact decode encode faults mutate d).1.backup ≡ d.dir)))
  transact_outcomes faults mutate d all clean = elim (load_entry_dirs-cases faults d all) [
    | inr (e, bad) ↦ inl (ap stored_entries (transact_unloaded faults mutate d bad))
    | inl whole ↦ elim (Result-cases (mutate (map decode (stored_entries d)))) [
      | inr (e, p) ↦ inl (ap stored_entries (transact_refuses faults mutate d whole p))
      | inl (next, p) ↦
          rw (transact_saves faults mutate d whole p)
            (elim (save_outcomes decode encode faults d next clean) [
              | inl same ↦ inl same
              | inr (inl reads) ↦ inr (inl (next, p, reads))
              | inr (inr aside) ↦ inr (inr aside)
            ])
    ]
  ]
