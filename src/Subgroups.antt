-- ===== src/Subgroups.antt =====
-- internal/subgroups/subgroups.go: the registry of subscription groups, as the functions that each
-- transaction runs on the decoded list. What `rand.Read` fills in is an argument, none if it fails.
mod Tests
pub mod Stored
pub mod Forms
pub mod Members
pub mod Rules
pub mod Registry
use singbox_deploy.Common.{
  ℕ, zero, suc, ◌+◌, ◌/◌, ◌%◌, Text, codes, text_eq, ◌==◌, Bool, true, false, not, ◌&&◌, ◌||◌,
  Option, none, some, List, [], ◌∷◌, ◌++◌, map, length, nat_beq, ltb, set, remove_at, select,
  index_from, contains, normalize, trim_space, to_lower, is_empty, if◌then◌else◌, Result, ok, err,
  reject, check_others, split, join,
}
use singbox_deploy.State.Entries.{Fields, read_entry_value}

pub record Group : Type 0 where
  pub id : Text
  pub alias : Text
  pub salt : Text
  pub members : List Text

pub data GroupError : Type 0 where
  no_id no_alias no_salt no_members not_found last_group no_random id_taken alias_taken salt_taken
        duplicate_id :
      GroupError

unfoldable pub alias_key : Group → Text
alias_key g = to_lower (trim_space g.alias)

unfoldable pub salt_key : Group → Text
salt_key g = trim_space g.salt

-- `hex.EncodeToString` of the first bytes of an array
unfoldable pub hex_digit : ℕ → ℕ
hex_digit d = if ltb d 10 then 48 + d else 87 + d

unfoldable pub hex_of : (ℕ → ℕ) → ℕ → Text
unfolding hex_digit
hex_of raw zero = []
hex_of raw (suc n) = hex_of raw n ++ (hex_digit (raw n / 16 % 16) ∷ hex_digit (raw n % 16) ∷ [])

unfoldable pub generate_id : Option (ℕ → ℕ) → Option Text
generate_id none = none
generate_id (some raw) = some (hex_of raw 16)

unfoldable pub has_member : Group → Text → Bool
has_member g id =
    if is_empty (normalize id) then false else contains (map normalize g.members) (normalize id)

-- `indexOf`; none for -1.
unfoldable pub index_of : List Group → Text → Option ℕ
index_of list id = index_from (λ (g : Group). g.id == id) 0 list

-- The ID that the loop of `normalizeGroupIDs` gives a group.
unfoldable pub assigned_id : Option (ℕ → ℕ) → Text → Option Text
assigned_id raw id = if is_empty (normalize id) then generate_id raw else some (normalize id)

-- `normalizeGroupIDs`: whether an ID changed, and the list; `i` is the loop's counter.
unfoldable pub normalize_group_ids :
    (ℕ → Option (ℕ → ℕ)) → List Text → ℕ → List Group → Result GroupError (Bool × List Group)
normalize_group_ids raw used i [] = ok (false, [])
normalize_group_ids raw used i (g ∷ gs) = elim (assigned_id (raw i) g.id) [
  | none ↦ err no_random
  | some id ↦
      if contains used id
      then err duplicate_id
      else elim (normalize_group_ids raw (id ∷ used) (suc i) gs) [
        | err e ↦ err e
        | ok (migrated, rest) ↦ ok (not (id == g.id) || migrated, record g { id = id } ∷ rest)
      ]
]

-- One round of the loop over the other groups.
unfoldable pub conflict : Group → Group → Option GroupError
conflict candidate existing =
    if not (is_empty candidate.id) && candidate.id == existing.id
    then some id_taken
    else if alias_key candidate == alias_key existing
    then some alias_taken
    else if salt_key candidate == salt_key existing
    then some salt_taken
    else none

-- `validateUnique`; `skip` is none for -1.
unfoldable pub validate_unique : List Group → Group → Option ℕ → Option GroupError
validate_unique list candidate skip =
    if is_empty (alias_key candidate)
    then some no_alias
    else if is_empty (salt_key candidate)
    then some no_salt
    else if is_empty candidate.members
    then some no_members
    else check_others (conflict candidate) skip 0 list

-- The ID under which `Add` stores a group.
unfoldable pub add_group : Option (ℕ → ℕ) → Group → List Group → Result GroupError (List Group)
add_group raw given list = elim (assigned_id raw given.id) [
  | none ↦ err no_random
  | some id ↦
      let g = record given { id = id } in reject (validate_unique list g none) (ok (list ++ g ∷ []))
]

unfoldable pub update_group : Group → List Group → Result GroupError (List Group)
update_group given list =
    let g = record given { id = normalize given.id } in
    if is_empty g.id then err no_id else elim (index_of list g.id) [
      | none ↦ err not_found
      | some i ↦ reject (validate_unique list g (some i)) (ok (set list i g))
    ]

unfoldable pub remove_group : Text → List Group → Result GroupError (List Group)
remove_group id list = elim (index_of list (normalize id)) [
  | none ↦ ok list
  | some i ↦ if nat_beq (length list) 1 then err last_group else ok (remove_at list i)
]

unfoldable pub drop_from : Text → Group → Group
drop_from member g = record g {
  members = select (λ (m : Text). not (normalize m == member)) g.members;
}

-- Nothing is done for an empty ID.
unfoldable pub drop_member : Text → List Group → Result GroupError (List Group)
drop_member member_id list =
    if is_empty (normalize member_id)
    then ok list
    else ok (map (drop_from (normalize member_id)) list)

unfoldable pub add_to : Text → List Text → Group → Group
add_to member wanted g =
    if not (contains wanted g.id) || has_member g member
    then g
    else record g { members = g.members ++ member ∷ [] }

unfoldable pub wanted_ids : List Text → List Text
wanted_ids ids = select (λ (id : Text). not (is_empty id)) (map normalize ids)

unfoldable pub add_member : Text → List Text → List Group → Result GroupError (List Group)
add_member member_id group_ids list =
    if is_empty (normalize member_id) || is_empty group_ids
    then ok list
    else ok (map (add_to (normalize member_id) (wanted_ids group_ids)) list)

unfoldable pub ensure_seeded :
    Option (ℕ → ℕ) → Text → List Text → List Group → Result GroupError (List Group)
ensure_seeded raw salt members list =
    if is_empty (trim_space salt) then err no_salt else elim (generate_id raw) [
      | none ↦ err no_random
      | some id ↦
          if is_empty list
          then ok (
              record { id = id; alias = codes "Default"; salt = trim_space salt; members = members }
              ∷ [])
          else ok list
    ]

-- `decodeGroup` and `encodeGroup`
unfoldable pub decode_members : List Text → List Text
decode_members ms = select (λ (m : Text). not (is_empty m)) (map normalize ms)

unfoldable pub decode_group : Fields → Group
decode_group root = record {
  id = read_entry_value root (codes "id") [];
  alias = read_entry_value root (codes "alias") [];
  salt = read_entry_value root (codes "salt") [];
  members = decode_members (split b',' (read_entry_value root (codes "members") []));
}

unfoldable pub encode_group : Group → Fields
encode_group g =
    (codes "id", normalize g.id)
    ∷ (codes "alias", trim_space g.alias)
    ∷ (codes "salt", trim_space g.salt)
    ∷ (codes "members", join b',' g.members)
    ∷ []

-- What `Add`, `Update`, `Remove`, `DropMember`, `AddMember` and `EnsureSeeded` run.
pub data Op : Type 0 where
  add : Option (ℕ → ℕ) → Group → Op
  update : Group → Op
  remove : Text → Op
  drop : Text → Op
  join_groups : Text → List Text → Op
  seed : Option (ℕ → ℕ) → Text → List Text → Op

unfoldable pub mutate : Op → List Group → Result GroupError (List Group)
mutate (add raw g) list = add_group raw g list
mutate (update g) list = update_group g list
mutate (remove id) list = remove_group id list
mutate (drop member) list = drop_member member list
mutate (join_groups member ids) list = add_member member ids list
mutate (seed raw salt members) list = ensure_seeded raw salt members list

-- `transact`: the IDs of the list are normalized before the mutation.
unfoldable pub apply : (ℕ → Option (ℕ → ℕ)) × Op → List Group → Result GroupError (List Group)
apply (raw, op) list = elim (normalize_group_ids raw [] 0 list) [
  | err e ↦ err e
  | ok (migrated, current) ↦ mutate op current
]
