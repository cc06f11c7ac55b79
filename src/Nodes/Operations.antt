-- ===== src/Nodes/Operations.antt =====
-- internal/nodes/nodes.go: the IDs of the registry, and the functions that each transaction runs.
use singbox_deploy.Common.{
  ℕ, suc, Text, codes, text_eq, ◌==◌, Bool, true, false, not, ◌&&◌, ◌||◌, Option, none, some, List,
  [], ◌∷◌, ◌++◌, set, remove_at, index_from, at_index, contains, normalize, trim_space, equal_fold,
  is_empty, if◌then◌else◌, Result, ok, err, reject, itoa, join, pos, nat_eq,
}
use singbox_deploy.Subgroups.{generate_id}
use singbox_deploy.Nodes.{
  Node, NodeError, no_id, no_random, not_found, changed_id, duplicate_id, Platform, validate_unique,
}

-- `strings.Join` at a NUL
unfoldable pub legacy_id : Platform → Node → ℕ → Text
legacy_id os n position = os.digest (
    join 0 (
      codes "singbox-deploy legacy node ID v1"
      ∷ itoa (pos position)
      ∷ n.wg_public_key
      ∷ n.wg_ip
      ∷ n.ssh_host
      ∷ itoa n.ssh_port
      ∷ n.ssh_user
      ∷ n.domain
      ∷ n.alias
      ∷ []))

unfoldable pub assigned_id : Platform → Node → ℕ → Text
assigned_id os n position = if is_empty n.id then legacy_id os n position else normalize n.id

-- `normalizeNodeIDs`: whether an ID changed, and the list; `i` is the loop's counter.
unfoldable pub normalize_node_ids :
    Platform → List Text → ℕ → List Node → Result NodeError (Bool × List Node)
normalize_node_ids os used i [] = ok (false, [])
normalize_node_ids os used i (n ∷ ns) =
    let id = assigned_id os n i in
    let rest = normalize_node_ids os (id ∷ used) (suc i) ns in
    if contains used id then err duplicate_id else elim rest [
      | err e ↦ err e
      | ok (migrated, tail) ↦
          ok (is_empty n.id || not (id == n.id) || migrated, record n { id = id } ∷ tail)
    ]

abbrev pub new_id : Option Text → Text → Option Text
new_id drawn [] = drawn
new_id drawn (c ∷ s) = some (c ∷ s)

-- `Add`: the ID is chosen and the node is included before the registry is read.
unfoldable pub add_node :
    Platform → Option (ℕ → ℕ) → Node → List Node → Result NodeError (List Node)
add_node os raw given list = elim (new_id (generate_id raw) (normalize given.id)) [
  | none ↦ err no_random
  | some id ↦
      let n = record given { id = id; include_in_subscription = true } in
      reject (validate_unique os list n none) (ok (list ++ n ∷ []))
]

-- The test of the loop of `Update`.
unfoldable pub is_target : Text → Text → Node → Bool
is_target id wg_ip n = if is_empty id then not (is_empty wg_ip) && n.wg_ip == wg_ip else n.id == id

abbrev pub id_of : Option Node → Text → Text
id_of none id = id
id_of (some old) id = if is_empty id then old.id else id

unfoldable pub update_node : Platform → Node → List Node → Result NodeError (List Node)
unfolding is_target
update_node os given list =
    let id = normalize given.id in
    elim (index_from (is_target id given.wg_ip) 0 list) [
      | none ↦ err not_found
      | some i ↦
          let n = record given { id = id_of (at_index list (some i)) id } in
          reject (validate_unique os list n (some i)) (ok (set list i n))
    ]

unfoldable pub index_of : List Node → Text → Option ℕ
index_of list id = index_from (λ (n : Node). n.id == id) 0 list

-- The rest of `Mutate`, after the callback.
unfoldable pub store_mutated : Platform → Text → ℕ → List Node → Node → Result NodeError (List Node)
store_mutated os id i list given =
    let n = record given { id = normalize given.id } in
    if n.id == id
    then reject (validate_unique os list n (some i)) (ok (set list i n))
    else err changed_id

-- `Mutate`; the callback is a function that may refuse.
unfoldable pub mutate_node :
    Platform → Text → (Node → Result NodeError Node) → List Node → Result NodeError (List Node)
unfolding store_mutated
mutate_node os given_id change list =
    let id = normalize given_id in
    if is_empty id then err no_id else elim (index_of list id) [
      | none ↦ err not_found
      | some i ↦ elim (at_index list (some i)) [
        | none ↦ err not_found
        | some n ↦ elim (change n) [
          | err e ↦ err e
          | ok changed ↦ store_mutated os id i list changed
        ]
      ]
    ]

abbrev pub first_of : Option ℕ → Option ℕ → Option ℕ
first_of (some i) other = some i
first_of none other = other

-- By ID in any case; if no node has it, by address.
unfoldable pub remove_node : Text → List Node → Result NodeError (List Node)
remove_node given list =
    let identifier = trim_space given in
    elim (first_of (index_from (λ (n : Node). equal_fold n.id identifier) 0 list)
      (index_from (λ (n : Node). n.wg_ip == identifier) 0 list)) [
        | none ↦ ok list
        | some i ↦ ok (remove_at list i)
      ]
