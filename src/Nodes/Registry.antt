-- ===== src/Nodes/Registry.antt =====
-- Every operation on the node registry keeps its rules.
use singbox_deploy.Common.{
  ℕ, suc, Text, text_eq, ◌==◌, text_beq_iff, true, false, Option, none, some, List, [], ◌∷◌, ◌++◌,
  ◌≡◌, ◌≢◌, refl, sym, ap, ◌∙◌, inl, inr, arith, All, All-zip, All-of_All, All-append, All-set,
  All-remove_at, AllPairs-append, AllPairs-set, AllPairs-remove_at, All-get_elem?, get_elem?, set,
  remove_at, index_from-some, not-contains_iff, normalize, normalize_idem, equal_fold, trim_space,
  is_empty, is_empty_iff, Bool-cases, Option-cases, Result-cases, Result, ok, err, index_from,
}
use singbox_deploy.Subgroups.{generate_id}
use singbox_deploy.Subgroups.Rules.{IsId, generate_id-IsId}
use singbox_deploy.Nodes.{Node, NodeError, Platform, validate_unique}
use singbox_deploy.Nodes.Operations.{
  assigned_id, normalize_node_ids, new_id, add_node, is_target, id_of, update_node, index_of,
  store_mutated, mutate_node, first_of, remove_node,
}
use singbox_deploy.Nodes.Rules.{
  IsNodes, Distinct, Distinct-symm, Distinct-of_add, Distinct-of_replace,
}
use singbox_deploy.Nodes.Reorder.{reorder_nodes, reorder_nodes-IsNodes}

-- What `Add`, `Update`, `Mutate`, `Remove` and `Reorder` run; `keep` is the rewrite of `Load`.
pub data Op : Type 0 where
  add : Option (ℕ → ℕ) → Node → Op
  update : Node → Op
  mutate : Text → (Node → Result NodeError Node) → Op
  remove : Text → Op
  reorder : List Text → Op
  keep : Op

unfoldable pub run_op : Platform → Op → List Node → Result NodeError (List Node)
run_op os (add raw n) list = add_node os raw n list
run_op os (update n) list = update_node os n list
run_op os (mutate id change) list = mutate_node os id change list
run_op os (remove id) list = remove_node id list
run_op os (reorder ids) list = reorder_nodes ids list
run_op os keep list = ok list

-- `transact`: the IDs of the list are normalized before the mutation.
unfoldable pub apply : Platform → Op → List Node → Result NodeError (List Node)
apply os op list = elim (normalize_node_ids os [] 0 list) [
  | err e ↦ err e
  | ok (migrated, current) ↦ run_op os op current
]

assigned_id_self : (os : Platform) (n : Node) (i : ℕ) → IsId n.id → assigned_id os n i ≡ n.id
unfolding assigned_id
assigned_id_self os n i h = ground (arith, h.0, h.1, is_empty_iff n.id)

pub normalize_node_ids_self :
    (os : Platform) (used : List Text) (i : ℕ) (list : List Node)
    → IsNodes os list
    → All (λ (n : Node). All (λ u. u ≢ n.id) used) list
    → normalize_node_ids os used i list ≡ ok (false, list)
unfolding normalize_node_ids
normalize_node_ids_self os used i [] h off = refl
normalize_node_ids_self os used i (n ∷ ns) h off =
    let rest =
      normalize_node_ids_self os (n.id ∷ used) (suc i) ns
        (record { sound = h.sound.1; distinct = h.distinct.1 })
        (All-zip (Distinct os n) (λ (x : Node). All (λ u. u ≢ x.id) used)
          (λ (x : Node). All (λ u. u ≢ x.id) (n.id ∷ used)) (λ x d o. (d.ids, o)) ns h.distinct.0
          off.1) in
    let fresh = (not-contains_iff used n.id).1 off.0 in
    let same = assigned_id_self os n i h.sound.0 in
    rw same (ground (arith, fresh, rest, h.sound.0.1, is_empty_iff n.id, text_beq_iff n.id n.id))

new_id-IsId :
    (raw : Option (ℕ → ℕ)) (given : Text) (id : Text)
    → new_id (generate_id raw) (normalize given) ≡ some id
    → IsId id
new_id-IsId raw given id h = go (normalize given) (normalize_idem given) h
  where
    go : (v : Text) → normalize v ≡ v → new_id (generate_id raw) v ≡ some id → IsId id
    go [] n e = generate_id-IsId raw e
    go (c ∷ s) n e =
        let same : c ∷ s ≡ id = ground arith in rw (← same) (n, λ z. absurd (ground arith))

add_node-IsNodes :
    (os : Platform) (raw : Option (ℕ → ℕ)) (given : Node) (list : List Node) {next : List Node}
    → add_node os raw given list ≡ ok next
    → IsNodes os list
    → IsNodes os next
unfolding add_node
add_node-IsNodes os raw given list {next} h reg =
    elim (Option-cases (new_id (generate_id raw) (normalize given.id))) [
      | inl e ↦ absurd (ground arith)
      | inr (id, e) ↦
          let n : Node = record given { id = id; include_in_subscription = true } in
          let good = new_id-IsId raw given.id id e in
          let stored : list ++ n ∷ [] ≡ next = ground arith in
          rw (← stored) (record {
            sound = All-append (λ (x : Node). IsId x.id) list (n ∷ []) reg.sound (good, tt);
            distinct =
                AllPairs-append (Distinct os) list n reg.distinct
                  (Distinct-of_add os list n reg.sound good (ground arith));
          })
    ]

-- A replacement that is accepted keeps the rules.
replace-IsNodes :
    (os : Platform) (list : List Node) (i : ℕ) (n old : Node)
    → IsNodes os list
    → IsId n.id
    → get_elem? list i ≡ some old
    → validate_unique os list n (some i) ≡ none
    → IsNodes os (set list i n)
replace-IsNodes os list i n old reg id at h = record {
  sound = All-set (λ (x : Node). IsId x.id) list i n reg.sound id;
  distinct =
      AllPairs-set (Distinct os) (Distinct-symm os) list i n reg.distinct
        (Distinct-of_replace os list n old i reg id at h);
}

id_of-IsId :
    (os : Platform) (list : List Node) (i : ℕ) (old : Node) (given : Text)
    → IsNodes os list
    → get_elem? list i ≡ some old
    → IsId (id_of (some old) (normalize given))
id_of-IsId os list i old given reg at = elim (Bool-cases (is_empty (normalize given))) [
  | inl e ↦ rw e (All-get_elem? (λ (x : Node). IsId x.id) list i old reg.sound at)
  | inr e ↦
      rw e (normalize_idem given, λ z. absurd (ground (arith, is_empty_iff (normalize given))))
]

update_node-IsNodes :
    (os : Platform) (given : Node) (list : List Node) {next : List Node}
    → update_node os given list ≡ ok next
    → IsNodes os list
    → IsNodes os next
unfolding update_node
update_node-IsNodes os given list {next} h reg =
    elim (Option-cases (index_from (is_target (normalize given.id) given.wg_ip) 0 list)) [
      | inl e ↦ absurd (ground arith)
      | inr (i, e) ↦
          let (j, old, same_j, at, holds, found) =
            index_from-some (is_target (normalize given.id) given.wg_ip) 0 list {k = i} e in
          let at_i : get_elem? list i ≡ some old =
            ap (get_elem? list) (omega (arith, same_j)) ∙ at in
          let n : Node = record given { id = id_of (get_elem? list i) (normalize given.id) } in
          let good : IsId n.id = rw at_i (id_of-IsId os list i old given.id reg at_i) in
          let stored : set list i n ≡ next = ground arith in
          rw (← stored) (replace-IsNodes os list i n old reg good at_i (ground arith))
    ]

-- What an index of an ID points to.
found_at :
    (list : List Node) (id : Text) (i : ℕ)
    → index_of list id ≡ some i
    → (old : Node) × (get_elem? list i ≡ some old) × (old.id ≡ id)
unfolding index_of
found_at list id i e =
    let (j, old, same_j, at, holds, found) =
      index_from-some (λ (n : Node). n.id == id) 0 list {k = i} e in
    (old, ap (get_elem? list) (omega (arith, same_j)) ∙ at, (text_beq_iff old.id id).0 holds)

store_mutated-IsNodes :
    (os : Platform) (id : Text) (i : ℕ) (list : List Node) (changed old : Node) {next : List Node}
    → get_elem? list i ≡ some old
    → normalize id ≢ []
    → store_mutated os (normalize id) i list changed ≡ ok next
    → IsNodes os list
    → IsNodes os next
unfolding store_mutated
store_mutated-IsNodes os id i list changed old {next} at some_id h reg =
    let n : Node = record changed { id = normalize changed.id } in
    let same : normalize changed.id ≡ normalize id =
      ground (arith, text_beq_iff (normalize changed.id) (normalize id)) in
    let stored : set list i n ≡ next = ground arith in
    rw (← stored) (
      replace-IsNodes os list i n old reg (normalize_idem changed.id, λ z. some_id (sym same ∙ z))
        at (ground arith))

mutate_node-IsNodes :
    (os : Platform) (id : Text) (change : Node → Result NodeError Node) (list : List Node)
    {next : List Node}
    → mutate_node os id change list ≡ ok next
    → IsNodes os list
    → IsNodes os next
unfolding mutate_node
mutate_node-IsNodes os id change list {next} h reg =
    elim (Option-cases (index_of list (normalize id))) [
      | inl e ↦ absurd (ground arith)
      | inr (i, e) ↦
          let (old, at, same) = found_at list (normalize id) i e in
          elim (Result-cases (change old)) [
            | inr (x, refused) ↦ absurd (ground (arith, at))
            | inl (changed, got) ↦
                store_mutated-IsNodes os id i list changed old at
                  (λ z. absurd (ground (arith, is_empty_iff (normalize id)))) (ground (arith, at))
                  reg
          ]
    ]

remove_node-IsNodes :
    (os : Platform) (id : Text) (list : List Node) {next : List Node}
    → remove_node id list ≡ ok next
    → IsNodes os list
    → IsNodes os next
unfolding remove_node
remove_node-IsNodes os id list {next} h reg =
    elim (Option-cases (
      first_of (index_from (λ (n : Node). equal_fold n.id (trim_space id)) 0 list)
        (index_from (λ (n : Node). n.wg_ip == trim_space id) 0 list))) [
          | inl absent ↦ let stored : list ≡ next = ground arith in rw (← stored) reg
          | inr (i, found) ↦
              let stored : remove_at list i ≡ next = ground arith in
              rw (← stored) (record {
                sound = All-remove_at (λ (x : Node). IsId x.id) list i reg.sound;
                distinct = AllPairs-remove_at (Distinct os) list i reg.distinct;
              })
        ]

run_op-IsNodes :
    (os : Platform) (op : Op) (list next : List Node)
    → run_op os op list ≡ ok next
    → IsNodes os list
    → IsNodes os next
unfolding run_op
run_op-IsNodes os (add raw n) list next h reg = add_node-IsNodes os raw n list h reg
run_op-IsNodes os (update n) list next h reg = update_node-IsNodes os n list h reg
run_op-IsNodes os (mutate id change) list next h reg = mutate_node-IsNodes os id change list h reg
run_op-IsNodes os (remove id) list next h reg = remove_node-IsNodes os id list h reg
run_op-IsNodes os (reorder ids) list next h reg = reorder_nodes-IsNodes os ids list h reg
run_op-IsNodes os keep list next h reg = let e : list ≡ next = ground arith in rw (← e) reg

pub apply-IsNodes :
    (os : Platform) (op : Op) (list next : List Node)
    → apply os op list ≡ ok next
    → IsNodes os list
    → IsNodes os next
unfolding apply
apply-IsNodes os op list next h reg =
    let same =
      normalize_node_ids_self os [] 0 list reg
        (All-of_All (λ (n : Node). All (λ u. u ≢ n.id) []) (λ n. tt) list) in
    run_op-IsNodes os op list next (ground (arith, same)) reg
