-- ===== src/Nodes/Status.antt =====
-- internal/nodes/nodes.go: `MutateStatus`, which may change the status fields alone.
use singbox_deploy.Common.{
  Text, codes, text_eq, ◌==◌, Bool, true, false, not, ◌&&◌, Option, none, some, List, [], ◌∷◌,
  contains, normalize, is_empty, if◌then◌else◌, Result, ok, err,
}
use singbox_deploy.State.Entries.{Fields, Tree, read_file}
use singbox_deploy.State.Entries.Update.{UpdateError, refused, update_entry_fields}
use singbox_deploy.Nodes.{Node, Clock, NodeError, no_id}
use singbox_deploy.Nodes.Codec.{decode_node, encode_node}

abbrev pub status_fields : List Text
status_fields = codes "agent_version" ∷ codes "singbox_version" ∷ codes "last_seen" ∷ []

abbrev or_zero : Option Text → Text
or_zero none = []
or_zero (some v) = v

pub data StatusError : Type 0 where
  callback : NodeError → StatusError
  id_changed : StatusError
  not_status : Text → StatusError

-- The loop over the encoded fields; a name that is missing before reads as the empty text.
unfoldable pub check_status : Fields → Fields → Option StatusError
check_status before [] = none
check_status before ((name, value) ∷ after) =
    let rest = check_status before after in
    if or_zero (read_file name before) == value
    then rest
    else if contains status_fields name
    then rest
    else some (not_status name)

-- The callback that `MutateStatus` gives to `UpdateEntryFields`.
unfoldable pub change_status :
    Clock
    → (Fields → Fields)
    → Text
    → (Node → Result NodeError Node)
    → Node
    → Result StatusError Node
unfolding check_status
change_status clock shuffle id change n = elim (change n) [
  | err e ↦ err (callback e)
  | ok next ↦
      if not (normalize next.id == id)
      then err id_changed
      else elim (check_status (encode_node clock n) (shuffle (encode_node clock next))) [
        | none ↦ ok next
        | some e ↦ err e
      ]
]

-- `MutateStatus`; an empty ID is refused before the registry is read. `checked` and `shuffle` are
-- the orders in which Go ranges over the encoded fields, first to check and then to write them.
unfoldable pub mutate_status :
    Clock
    → (Fields → Fields)
    → (Fields → Fields)
    → (Text → Bool)
    → Text
    → (Node → Result NodeError Node)
    → Tree
    → Result (UpdateError StatusError) Node × Tree
unfolding change_status
mutate_status clock checked shuffle writes given change entries =
    if is_empty (normalize given)
    then (err (refused (callback no_id)), entries)
    else update_entry_fields (decode_node clock) (encode_node clock) shuffle writes
        (λ (n : Node). normalize n.id == normalize given)
        (change_status clock checked (normalize given) change) entries

abbrev is_some : Option Text → Bool
is_some none = false
is_some (some v) = true

abbrev all_found : Fields → Fields → Bool
all_found before [] = true
all_found before ((name, value) ∷ after) = is_some (read_file name before) && all_found before after
