-- ===== src/State/Entries/Runs.antt =====
-- A registry over any run of transactions, each of which may fail at any call but a read of a field
-- file: one rule for the registries that stand on `TransactEntryDirs`. A read that fails is taken
-- for a missing file, and the transaction would store that.
use singbox_deploy.Common.{◌≤◌, ◌≡◌, List, [], map, length, none, Result, ok, inl, inr, refl}
use singbox_deploy.State.Entries.{Fields, Disk, Faults, stored_entries, transact}
use singbox_deploy.State.Entries.Load.{AllRead}
use singbox_deploy.State.Entries.Order.{written, stored_entries-dir}
use singbox_deploy.State.Entries.Transact.{transact_outcomes}

-- A transaction stages and sets aside under names of its own: leftovers of others are not its own.
abbrev pub begin : Disk → Disk
begin d = record d { staging = none; backup = none }

stored_entries_absent : (d : Disk) → d.dir ≡ none → stored_entries d ≡ []
unfolding stored_entries
stored_entries_absent d e = rw (e, stored_entries) refl

module _ {T E Op : Type 0} (decode : Fields → T) (encode : T → Fields)
    (apply : Op → List T → Result E (List T)) where
  abbrev pub loaded : Disk → List T
  loaded d = map decode (stored_entries d)

  -- One transaction that can read every field file, with an operation that leaves at most 999
  -- entries.
  pub data Step : Disk → Disk → Type 0 where
    run :
        (faults : Faults) (op : Op) (d : Disk)
        → AllRead faults
        → ((next : List T) → apply op (loaded d) ≡ ok next → length next ≤ 999)
        → Step d (transact decode encode faults (apply op) (begin d)).1

  pub data Reach (d : Disk) : Disk → Type 0 where
    here : Reach d d
    next : {e f : Disk} → Reach d e → Step e f → Reach d f

  module _ (P : List T → Type 0) (empty : P [])
      (round : (xs : List T) → P xs → P (map (λ x. decode (written (encode x))) xs))
      (keep : (op : Op) (xs : List T) (ys : List T) → apply op xs ≡ ok ys → P xs → P ys) where
    Step-keeps : {d e : Disk} → Step d e → P (loaded d) → P (loaded e)
    Step-keeps (run faults op d all fits) h =
        let before = stored_entries-dir (begin d) d refl in
        elim (transact_outcomes decode encode faults (apply op) (begin d) all refl) [
          | inl same ↦ rw (same, before) h
          | inr (inl (ys, gave, reads)) ↦
              let gave' = rw before at gave in
              let good = keep op (loaded d) ys gave' h in rw (reads (fits ys gave')) (round ys good)
          | inr (inr (gone, _)) ↦
              rw (stored_entries_absent (transact decode encode faults (apply op) (begin d)).1 gone)
                empty
        ]

    -- What an invariant of the operations says of the stored registry holds after every run.
    pub Reach-keeps : {d e : Disk} → P (loaded d) → Reach d e → P (loaded e)
    Reach-keeps h here = h
    Reach-keeps h (next r s) = Step-keeps s (Reach-keeps h r)
