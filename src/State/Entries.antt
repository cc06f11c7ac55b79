-- ===== src/State/Entries.antt =====
-- internal/state/entries.go: a registry is a directory of numbered entry directories, one file for
-- each field. The two locks of the source are held from the load to the commit of a transaction,
-- so that transactions follow one another; calls of the operating system, the reads of the field
-- files included, succeed or fail as a field of `Faults` says. Only directories stand in a tree.
pub mod Order
pub mod Load
pub mod Safety
pub mod Transact
pub mod Runs
pub mod Update
use singbox_deploy.Common.{
  ℕ, zero, suc, ◌+◌, ◌-◌, Text, codes, text_eq, ◌==◌, Bool, true, false, not, ◌&&◌, ◌||◌, Option,
  none, some, List, [], ◌∷◌, ◌++◌, map, length, contains, replicate, trim_space, is_empty,
  format_nat, ltb, nat_beq, nat_eq, if◌then◌else◌, Result, ok, err,
}

-- The names and the contents of the files of one entry directory.
abbrev pub Fields : Type 0
Fields = List (Text × Text)

-- Entry directories with their names.
abbrev pub Tree : Type 0
Tree = List (Text × Fields)

unfoldable pub valid_entry_field_name : Text → Bool
valid_entry_field_name name =
    not (is_empty name)
    && not (name == codes ".")
    && not (name == codes "..")
    && (not (contains name b'/') || name == codes "/")

unfoldable pub read_file : Text → Fields → Option Text
read_file name [] = none
read_file name ((n, v) ∷ fields) =
    let rest = read_file name fields in if n == name then some v else rest

abbrev or_fallback : Text → Text → Text
or_fallback fallback value = if is_empty value then fallback else value

-- The field files that can be read, where `reads` says of which the read succeeds.
unfoldable pub readable : (Text → Bool) → Fields → Fields
readable reads [] = []
readable reads ((n, v) ∷ fields) =
    let rest = readable reads fields in if reads n then (n, v) ∷ rest else rest

-- `ReadEntryValue`, on the files that can be read: a file whose read fails is as one that is missing.
unfoldable pub read_entry_value : Fields → Text → Text → Text
unfolding read_file valid_entry_field_name
read_entry_value fields name fallback =
    if valid_entry_field_name name
    then elim (read_file name fields) [
      | none ↦ fallback
      | some b ↦ or_fallback fallback (trim_space b)
    ]
    else fallback

-- The field files of one staged entry, or none where a field has no valid name.
unfoldable pub stage_fields : Fields → Option Fields
unfolding valid_entry_field_name
stage_fields [] = some []
stage_fields ((n, v) ∷ fields) =
    let rest = stage_fields fields in
    if valid_entry_field_name n
    then elim rest [ none ↦ none | some files ↦ some ((n, v ++ codes "\n") ∷ files) ]
    else none

-- `fmt.Sprintf("%03d", i)`
unfoldable pub entry_name : ℕ → Text
entry_name i = let s = format_nat i in replicate (3 - length s) b'0' ++ s

-- The staged tree; `i` is the number of its first entry.
unfoldable pub stage_entries : ℕ → List Fields → Option Tree
unfolding stage_fields entry_name
stage_entries i [] = some []
stage_entries i (f ∷ fs) =
    let rest = stage_entries (suc i) fs in
    elim (stage_fields f) [
      | none ↦ none
      | some files ↦ elim rest [ none ↦ none | some t ↦ some ((entry_name i, files) ∷ t) ]
    ]

-- The three paths of a save: the registry, the staged tree beside it, and the old tree set aside.
pub record Disk : Type 0 where
  pub dir : Option Tree
  pub staging : Option Tree
  pub backup : Option Tree

-- `true` where the call succeeds. `lock` and `list` are those of a load, `reads` is the read of a
-- field file of an entry directory, `inspect` is the `Lstat` of a commit, and `cleanup` the deferred
-- removal of the backup.
pub record Faults : Type 0 where
  pub lock : Bool
  pub list : Bool
  pub reads : Text → Text → Bool
  pub stage : Bool
  pub inspect : Bool
  pub move_aside : Bool
  pub commit : Bool
  pub restore : Bool
  pub remove_backup : Bool
  pub cleanup : Bool

pub data SaveError : Type 0 where
  stage_failed inspect_failed move_failed commit_failed restore_failed remove_failed : SaveError

abbrev drop_backup : Bool → Disk → Disk
drop_backup done d = if done then record d { backup = none } else d

-- `rename(staging, dir)` with what follows it; `had_previous` is the test of the source.
unfoldable pub commit_staged : Faults → Bool → Disk → Option SaveError × Disk
commit_staged faults had_previous d =
    if faults.commit
    then (let installed = record d { dir = d.staging; staging = none } in
        if had_previous
        then (if faults.remove_backup
            then (none, drop_backup true installed)
            else (some remove_failed, drop_backup faults.cleanup installed))
        else (none, installed))
    else (let discarded = record d { staging = none } in
        if had_previous
        then (if faults.restore
            then (some commit_failed, record discarded { dir = d.backup; backup = none })
            else (some restore_failed, discarded))
        else (some commit_failed, discarded))

unfoldable pub commit_tree : Faults → Disk → Option SaveError × Disk
unfolding commit_staged
commit_tree faults d =
    if not faults.inspect then (some inspect_failed, record d { staging = none }) else elim d.dir [
      | none ↦ commit_staged faults false d
      | some old ↦
          if faults.move_aside
          then commit_staged faults true (record d { dir = none; backup = some old })
          else (some move_failed, record d { staging = none })
    ]

unfoldable pub save_entry_dirs : Faults → List Fields → Disk → Option SaveError × Disk
unfolding commit_tree stage_entries
save_entry_dirs faults items d = elim (stage_entries 1 items) [
  | none ↦ (some stage_failed, d)
  | some t ↦
      if faults.stage
      then commit_tree faults (record d { staging = some t })
      else (some stage_failed, d)
]

-- `a < b` on Go strings.
unfoldable pub text_lt : Text → Text → Bool
text_lt [] [] = false
text_lt [] (y ∷ b) = true
text_lt (x ∷ a) [] = false
text_lt (x ∷ a) (y ∷ b) = ltb x y || (nat_beq x y && text_lt a b)

unfoldable pub insert_entry : Text × Fields → Tree → Tree
unfolding text_lt
insert_entry (n, f) [] = (n, f) ∷ []
insert_entry (n, f) ((m, g) ∷ t) =
    let rest = insert_entry (n, f) t in if text_lt m n then (m, g) ∷ rest else (n, f) ∷ (m, g) ∷ t

-- The sort of `os.ReadDir`'s entries by name.
unfoldable pub sort_entries : Tree → Tree
unfolding insert_entry
sort_entries [] = []
sort_entries (e ∷ t) = insert_entry e (sort_entries t)

-- The entries that stand on the disk, in the order of their names: what a load gives where no call
-- of it fails.
unfoldable pub stored_entries : Disk → List Fields
unfolding sort_entries
stored_entries d = elim d.dir [
  | none ↦ []
  | some t ↦ map (λ (e : Text × Fields). e.1) (sort_entries t)
]

pub data LoadError : Type 0 where
  lock_failed list_failed : LoadError

-- The entries of a tree with the files that can be read.
unfoldable pub read_entries : (Text → Text → Bool) → Tree → List Fields
read_entries reads [] = []
read_entries reads ((n, fields) ∷ t) = readable (reads n) fields ∷ read_entries reads t

-- The locks and the load of `LoadEntryDirs` and of `TransactEntryDirs`.
unfoldable pub load_entry_dirs : Faults → Disk → Result LoadError (List Fields)
unfolding sort_entries
load_entry_dirs faults d =
    if not faults.lock
    then err lock_failed
    else if not faults.list
    then err list_failed
    else elim d.dir [ none ↦ ok [] | some t ↦ ok (read_entries faults.reads (sort_entries t)) ]

pub data TransactError (E : Type 0) : Type 0 where
  load_failed : LoadError → TransactError E
  refused : E → TransactError E
  save_failed : SaveError → TransactError E

module _ {T E : Type 0} (decode : Fields → T) (encode : T → Fields) where
  abbrev saved : List T → Option SaveError × Disk → Result (TransactError E) (List T) × Disk
  saved next (none, d) = (ok next, d)
  saved next (some e, d) = (err (save_failed e), d)

  -- `TransactEntryDirs`
  unfoldable pub transact :
      Faults → (List T → Result E (List T)) → Disk → Result (TransactError E) (List T) × Disk
  transact faults mutate d = elim (load_entry_dirs faults d) [
    | err e ↦ (err (load_failed e), d)
    | ok current ↦ elim (mutate (map decode current)) [
      | err e ↦ (err (refused e), d)
      | ok next ↦ saved next (save_entry_dirs faults (map encode next) d)
    ]
  ]
