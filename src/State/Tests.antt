-- ===== src/State/Tests.antt =====
-- Saves and transactions at concrete inputs.
use singbox_deploy.Common.{
  Text, codes, text_beq, contains, List, [], ◌∷◌, map, none, some, true, false, ◌≡◌, ◌⊎◌, refl,
  arith, Result, ok, err, format_nat,
}
use singbox_deploy.State.Pair.{Files, Faults, write_file_pair}
use singbox_deploy.State.Pair.Safety.{write_file_pair_safe, Replaced, Unchanged, Mismatched}
use singbox_deploy.State.Entries
use singbox_deploy.State.Entries.{
  Fields, Tree, Disk, save_entry_dirs, stage_entries, stored_entries, load_entry_dirs, read_entries,
  readable, transact, load_failed, list_failed, TransactError, text_lt, entry_name,
}
use singbox_deploy.State.Entries.Order.{written}
use singbox_deploy.State.Entries.Safety.{save_entry_dirs_safe, Committed, Kept, Aside}
use singbox_deploy.State.Entries.Transact.{load-transact}

-- The second rename fails and the first file is put back.
abbrev second_fails : Faults
second_fails = record {
  stage_a = true;
  stage_b = true;
  read_a = true;
  stat_a = true;
  stage_rollback = true;
  rename_a = true;
  rename_b = false;
  rollback = true;
}

abbrev pair : Files
pair = record { a = some (codes "old cert"); b = some (codes "old key"); kept = none }

write_file_pair_safe_example :
    Replaced
      (codes "cert")
      (codes "key")
      pair
      (write_file_pair second_fails (codes "cert") (codes "key") pair)
    ⊎ (Unchanged pair (write_file_pair second_fails (codes "cert") (codes "key") pair)
        ⊎ Mismatched
            (codes "cert")
            pair
            (write_file_pair second_fails (codes "cert") (codes "key") pair))
write_file_pair_safe_example = write_file_pair_safe second_fails (codes "cert") (codes "key") pair

rolls_back : (write_file_pair second_fails (codes "cert") (codes "key") pair).1 ≡ pair
unfolding write_file_pair
rolls_back = refl

-- The commit fails and the old tree is put back.
abbrev commit_fails : Entries.Faults
commit_fails = record {
  lock = true;
  list = true;
  reads = λ entry field. true;
  stage = true;
  inspect = true;
  move_aside = true;
  commit = false;
  restore = true;
  remove_backup = true;
  cleanup = true;
}

abbrev no_fault : Entries.Faults
no_fault = record commit_fails { commit = true }

abbrev entry : Fields
entry = (codes "id", codes "a1") ∷ []

abbrev empty_disk : Disk
empty_disk = record { dir = some []; staging = none; backup = none }

save_entry_dirs_safe_example :
    ((t : Tree) × (stage_entries 1 (entry ∷ []) ≡ some t)
      × Committed t (save_entry_dirs commit_fails (entry ∷ []) empty_disk))
    ⊎ (Kept empty_disk (save_entry_dirs commit_fails (entry ∷ []) empty_disk)
        ⊎ Aside empty_disk (save_entry_dirs commit_fails (entry ∷ []) empty_disk))
save_entry_dirs_safe_example = save_entry_dirs_safe commit_fails (entry ∷ []) empty_disk refl

abbrev add_entry : List Fields → Result Text (List Fields)
add_entry list = ok (entry ∷ list)

abbrev self : Fields → Fields
self f = f

added : (transact self self no_fault add_entry empty_disk).0 ≡ ok (entry ∷ [])
unfolding transact load_entry_dirs save_entry_dirs read_entries text_beq contains
added = refl

load-transact_example :
    (fs : List Fields) × (load_entry_dirs no_fault empty_disk ≡ ok fs)
    × (add_entry (map self fs) ≡ ok (entry ∷ []))
    × (map self (stored_entries (transact self self no_fault add_entry empty_disk).1)
        ≡ map (λ x. self (written (self x))) (entry ∷ []))
load-transact_example = load-transact self self no_fault add_entry empty_disk added (omega arith)

-- A file that cannot be read is left out of what the mutation gets, and so of what is stored.
abbrev entry_disk : Disk
entry_disk = record empty_disk { dir = some ((codes "001", written entry) ∷ []) }

abbrev keep_entries : List Fields → Result Text (List Fields)
keep_entries list = ok list

forgets_unread :
    (transact self self (record no_fault { reads = λ e n. false }) keep_entries entry_disk).1.dir
    ≡ some ((codes "001", []) ∷ [])
unfolding transact load_entry_dirs save_entry_dirs format_nat read_entries readable
forgets_unread = refl

-- A load that fails changes nothing.
unlisted :
    transact self self (record no_fault { list = false }) add_entry empty_disk
    ≡ (err (load_failed list_failed), empty_disk)
unfolding transact load_entry_dirs
unlisted = refl

-- From the thousandth entry on, names do not sort as their numbers do.
names_overtake : text_lt (entry_name 1000) (entry_name 101) ≡ true
unfolding text_lt entry_name format_nat
names_overtake = refl
