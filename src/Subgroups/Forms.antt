-- ===== src/Subgroups/Forms.antt =====
-- internal/subgroups/subgroups.go: loading the registry, and the checks that the forms make before
-- an operation is run.
use singbox_deploy.Common.{
  ℕ, Text, text_eq, ◌==◌, Bool, false, not, ◌&&◌, Option, none, List, [], ◌∷◌, map, ◌≡◌, ◌≢◌, ◌↔◌,
  ◌⊎◌, inl, inr, refl, arith, All, All-of_All, All-of_AllBut-none, AllBut-of_All, find?, normalize,
  to_lower, trim_space, trim_left, trim_right, is_empty, is_empty_iff, text_beq_iff, if◌then◌else◌,
  Result, ok, err,
}
use singbox_deploy.State.Entries.{
  Disk, Faults, LoadError, TransactError, refused, load_failed, stored_entries, load_entry_dirs,
  transact,
}
use singbox_deploy.State.Entries.Load.{AllRead, load_entry_dirs-cases}
use singbox_deploy.Subgroups.{
  Group, GroupError, alias_key, salt_key, normalize_group_ids, validate_unique, decode_group,
  encode_group,
}
use singbox_deploy.Subgroups.Rules.{
  IsGroups, Distinct, validate_unique_iff, normalize_group_ids_self,
}

-- The mutation of `Load`, which returns the list after its IDs are normalized.
unfoldable pub keep_ids : (ℕ → Option (ℕ → ℕ)) → List Group → Result GroupError (List Group)
keep_ids raw list = elim (normalize_group_ids raw [] 0 list) [
  | err e ↦ err e
  | ok (migrated, current) ↦ ok current
]

-- `Load`; only an ID that changed makes it write. `seen` has the calls of its first load, `raw` and
-- `again` are the random bytes of the two passes over the IDs.
unfoldable pub load_groups :
    Faults
    → Faults
    → (ℕ → Option (ℕ → ℕ))
    → (ℕ → Option (ℕ → ℕ))
    → Disk
    → Result (TransactError GroupError) (List Group) × Disk
unfolding keep_ids
load_groups seen faults raw again d = elim (load_entry_dirs seen d) [
  | err e ↦ (err (load_failed e), d)
  | ok fs ↦ elim (normalize_group_ids raw [] 0 (map decode_group fs)) [
    | err e ↦ (err (refused e), d)
    | ok (migrated, list) ↦
        if migrated
        then transact decode_group encode_group faults (keep_ids again) d
        else (ok list, d)
  ]
]

-- `conflict`, the search of the forms
unfoldable pub find_conflict : List Group → Text → Text → (Group → Text) → Option Group
find_conflict list key exempt_id key_of =
    if is_empty key
    then none
    else find?
        (λ (e : Group).
          not (not (is_empty (normalize exempt_id)) && e.id == normalize exempt_id)
          && key_of e == key)
        list

abbrev blank : Group
blank = record { id = []; alias = []; salt = []; members = [] }

unfoldable pub alias_conflict : List Group → Text → Text → Option Group
unfolding find_conflict
alias_conflict list alias exempt_id =
    find_conflict list (alias_key (record blank { alias = alias })) exempt_id alias_key

unfoldable pub salt_conflict : List Group → Text → Text → Option Group
unfolding find_conflict
salt_conflict list salt exempt_id =
    find_conflict list (salt_key (record blank { salt = salt })) exempt_id salt_key

-- On a registry that keeps the rules, `Load` writes nothing where its first load reads every field
-- file: either a call of that load fails, and `Load` returns that error, or `Load` returns the groups
-- that are stored.
pub load_groups_quiet :
    (seen faults : Faults) (raw again : ℕ → Option (ℕ → ℕ)) (d : Disk)
    → AllRead seen
    → IsGroups (map decode_group (stored_entries d))
    → ((e : LoadError) × (load_entry_dirs seen d ≡ err e)
        × (load_groups seen faults raw again d ≡ (err (load_failed e), d)))
      ⊎ ((load_entry_dirs seen d ≡ ok (stored_entries d))
          × (load_groups seen faults raw again d ≡ (ok (map decode_group (stored_entries d)), d)))
unfolding load_groups
load_groups_quiet seen faults raw again d all reg = elim (load_entry_dirs-cases seen d all) [
  | inr (e, bad) ↦ inl (e, bad, ground (arith, bad))
  | inl whole ↦
      let list = map decode_group (stored_entries d) in
      let same =
        normalize_group_ids_self raw [] 0 list reg
          (All-of_All (λ (g : Group). All (λ u. u ≢ g.id) []) (λ g. tt) list) in
      inr (whole, ground (arith, whole, same))
]

find?-none_iff :
    (p : Group → Bool) (list : List Group) → (find? p list ≡ none) ↔ All (λ g. p g ≡ false) list
unfolding find?
find?-none_iff p [] = (λ h. tt, λ h. refl)
find?-none_iff p (g ∷ gs) = ground (arith, find?-none_iff p gs)

search_new :
    (key : Text) (key_of : Group → Text) (list : List Group)
    → All (λ e. key_of e ≢ key) list
      ↔ All
          (λ e.
            (not (not (is_empty (normalize [])) && e.id == normalize []) && key_of e == key)
            ≡ false)
          list
unfolding normalize to_lower trim_space trim_left trim_right
search_new key key_of [] = (λ h. tt, λ h. tt)
search_new key key_of (e ∷ es) =
    ground (arith, search_new key key_of es, text_beq_iff (key_of e) key)

find_conflict_iff :
    (list : List Group) (key : Text) (key_of : Group → Text)
    → key ≢ []
    → (find_conflict list key [] key_of ≡ none) ↔ All (λ e. key_of e ≢ key) list
unfolding find_conflict
find_conflict_iff list key key_of h = ground (
  arith,
  is_empty_iff key,
  search_new key key_of list,
  find?-none_iff
      (λ (e : Group).
        not (not (is_empty (normalize [])) && e.id == normalize []) && key_of e == key)
      list,
)

All-Distinct_iff :
    (g : Group) (list : List Group)
    → All (λ e. Distinct e g) list ↔ (
        All (λ (e : Group). e.id ≢ g.id) list
        × All (λ e. alias_key e ≢ alias_key g) list
        × All (λ e. salt_key e ≢ salt_key g) list)
All-Distinct_iff g [] = (λ h. (tt, tt, tt), λ h. tt)
All-Distinct_iff g (e ∷ es) = ground (arith, All-Distinct_iff g es)

-- The forms and the registry agree on a new group: if it has an ID that no group has, an alias, a
-- salt and a member, then `validateUnique` accepts it exactly when neither search of the forms,
-- with no group exempt, finds a conflict.
pub forms_agree :
    (list : List Group) (g : Group)
    → g.id ≢ []
    → alias_key g ≢ []
    → salt_key g ≢ []
    → g.members ≢ []
    → All (λ (e : Group). e.id ≢ g.id) list
    → (validate_unique list g none ≡ none)
      ↔ ((alias_conflict list g.alias [] ≡ none) × (salt_conflict list g.salt [] ≡ none))
unfolding alias_conflict salt_conflict alias_key salt_key
forms_agree list g some_id some_alias some_salt some_members fresh =
    let accept = validate_unique_iff list g none some_id in
    let to = All-of_AllBut-none (λ e. Distinct e g) 0 list in
    let from = AllBut-of_All (λ e. Distinct e g) none 0 list in
    let split_up = All-Distinct_iff g list in
    let aliases = find_conflict_iff list (alias_key g) alias_key some_alias in
    let salts = find_conflict_iff list (salt_key g) salt_key some_salt in
    (
      λ h. let d = split_up.0 (to ((accept.0 h).1.1)) in (aliases.1 d.1, salts.1 d.2),
      λ h. accept.1 (
        (some_alias, some_salt),
        (some_members, from (split_up.1 (fresh, aliases.0 h.0, salts.0 h.1))),
      ),
    )
