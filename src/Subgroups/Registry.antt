-- ===== src/Subgroups/Registry.antt =====
-- The rules of the registry of subscription groups, kept by every operation.
use singbox_deploy.Common.{
  ℕ, lower_rune, Text, none, some, Option, List, [], ◌∷◌, ◌++◌, map, ◌≡◌, ◌≢◌, refl, sym, ◌∙◌, inl,
  inr, arith, codes, trim_space, to_lower, trim_left, trim_right, trim_space_idem, text_eq, All,
  AllPairs-append, AllPairs-set, AllPairs-remove_at, All-of_AllBut-none, All-append, All-set,
  All-remove_at, ok, Option-cases, Bool-cases, normalize, normalize_idem, set, remove_at, is_empty,
  is_empty_iff, is_space, All-of_All, ◌||◌,
}
use singbox_deploy.Subgroups.{
  Op, add, update, remove, drop, join_groups, seed, mutate, apply, Group, alias_key, salt_key,
  generate_id, index_of, assigned_id, add_group, update_group, remove_group, drop_from, drop_member,
  add_to, wanted_ids, add_member, ensure_seeded,
}
use singbox_deploy.Subgroups.Rules.{
  IsGroup, Distinct, Distinct-symm, IsGroups, SameKeys, IsGroups-map, validate_unique_iff,
  assigned_id-IsId, generate_id-IsId, normalize_group_ids_self,
}

add_group-IsGroups :
    (raw : Option (ℕ → ℕ)) (given : Group) (list : List Group) {next : List Group}
    → add_group raw given list ≡ ok next
    → IsGroups list
    → IsGroups next
unfolding add_group
add_group-IsGroups raw given list {next} h reg = elim (Option-cases (assigned_id raw given.id)) [
  | inl e ↦ absurd (ground arith)
  | inr (id, e) ↦
      let g : Group = record given { id = id } in
      let good = assigned_id-IsId raw given.id e in
      let stored : list ++ g ∷ [] ≡ next = ground arith in
      let (keys, rest) = (validate_unique_iff list g none good.1).0 (ground arith) in
      rw (← stored) (record {
        sound = All-append IsGroup list (g ∷ []) reg.sound ((good, keys.0, keys.1), tt);
        distinct =
            AllPairs-append Distinct list g reg.distinct
              (All-of_AllBut-none (λ e. Distinct e g) 0 list rest.1);
      })
]

update_group-IsGroups :
    (given : Group) (list : List Group) {next : List Group}
    → update_group given list ≡ ok next
    → IsGroups list
    → IsGroups next
unfolding update_group
update_group-IsGroups given list {next} h reg =
    let g : Group = record given { id = normalize given.id } in
    elim (Option-cases (index_of list (normalize given.id))) [
      | inl e ↦ absurd (ground arith)
      | inr (i, e) ↦
          let some_id : g.id ≢ [] =
            λ z. absurd (ground (arith, is_empty_iff (normalize given.id))) in
          let stored : set list i g ≡ next = ground arith in
          let (keys, rest) = (validate_unique_iff list g (some i) some_id).0 (ground arith) in
          rw (← stored) (record {
            sound =
                All-set IsGroup list i g reg.sound
                  ((normalize_idem given.id, some_id), keys.0, keys.1);
            distinct = AllPairs-set Distinct Distinct-symm list i g reg.distinct rest.1;
          })
    ]

remove_group-IsGroups :
    (id : Text) (list : List Group) {next : List Group}
    → remove_group id list ≡ ok next
    → IsGroups list
    → IsGroups next
unfolding remove_group
remove_group-IsGroups id list {next} h reg = elim (Option-cases (index_of list (normalize id))) [
  | inl absent ↦ let stored : list ≡ next = ground arith in rw (← stored) reg
  | inr (i, found) ↦
      let stored : remove_at list i ≡ next = ground arith in
      rw (← stored) (record {
        sound = All-remove_at IsGroup list i reg.sound;
        distinct = AllPairs-remove_at Distinct list i reg.distinct;
      })
]

drop_from-SameKeys : (member : Text) (g : Group) → SameKeys (drop_from member g) g
unfolding drop_from alias_key salt_key
drop_from-SameKeys member g = (refl, refl, refl)

add_to-SameKeys :
    (member : Text) (wanted : List Text) (g : Group) → SameKeys (add_to member wanted g) g
unfolding add_to alias_key salt_key
add_to-SameKeys member wanted g = (ground arith, ground arith, ground arith)

drop_member-IsGroups :
    (member : Text) (list : List Group) {next : List Group}
    → drop_member member list ≡ ok next
    → IsGroups list
    → IsGroups next
unfolding drop_member
drop_member-IsGroups member list {next} h reg = elim (Bool-cases (is_empty (normalize member))) [
  | inl e ↦ let stored : list ≡ next = ground arith in rw (← stored) reg
  | inr e ↦
      let stored : map (drop_from (normalize member)) list ≡ next = ground arith in
      rw (← stored) (
        IsGroups-map (drop_from (normalize member)) list
          (All-of_All (λ g. SameKeys (drop_from (normalize member) g) g)
            (drop_from-SameKeys (normalize member)) list)
          reg)
]

add_member-IsGroups :
    (member : Text) (ids : List Text) (list : List Group) {next : List Group}
    → add_member member ids list ≡ ok next
    → IsGroups list
    → IsGroups next
unfolding add_member
add_member-IsGroups member ids list {next} h reg =
    elim (Bool-cases (is_empty (normalize member) || is_empty ids)) [
      | inl e ↦ let stored : list ≡ next = ground arith in rw (← stored) reg
      | inr e ↦
          let f = add_to (normalize member) (wanted_ids ids) in
          let stored : map f list ≡ next = ground arith in
          rw (← stored) (
            IsGroups-map f list
              (All-of_All (λ g. SameKeys (f g) g)
                (add_to-SameKeys (normalize member) (wanted_ids ids)) list)
              reg)
    ]

default_alias_closed : to_lower (trim_space (codes "Default")) ≢ []
unfolding to_lower trim_space trim_left trim_right is_space lower_rune
default_alias_closed h = absurd (ground arith)

default_alias : (g : Group) → g.alias ≡ codes "Default" → alias_key g ≢ []
unfolding alias_key
default_alias g e = rw e (default_alias_closed)

seed_salt :
    (g : Group) (salt : Text) → trim_space salt ≢ [] → g.salt ≡ trim_space salt → salt_key g ≢ []
unfolding salt_key
seed_salt g salt h e = rw (e, trim_space_idem salt) h

ensure_seeded-IsGroups :
    (raw : Option (ℕ → ℕ)) (salt : Text) (members : List Text) (list : List Group)
    {next : List Group}
    → ensure_seeded raw salt members list ≡ ok next
    → IsGroups list
    → IsGroups next
unfolding ensure_seeded
ensure_seeded-IsGroups raw salt members list {next} h reg = elim (Option-cases (generate_id raw)) [
  | inl e ↦ absurd (ground arith)
  | inr (id, e) ↦ elim (Bool-cases (is_empty list)) [
    | inl none_yet ↦
        let g : Group = record {
          id = id;
          alias = codes "Default";
          salt = trim_space salt;
          members = members;
        } in
        let stored : g ∷ [] ≡ next = ground arith in
        rw (← stored) (record {
          sound = (
            (
              generate_id-IsId raw e,
              default_alias g refl,
              seed_salt g salt (ground (arith, is_empty_iff (trim_space salt))) refl,
            ),
            tt,
          );
          distinct = (tt, tt);
        })
    | inr some_already ↦ let stored : list ≡ next = ground arith in rw (← stored) reg
  ]
]

mutate-IsGroups :
    (op : Op) (list next : List Group) → mutate op list ≡ ok next → IsGroups list → IsGroups next
unfolding mutate
mutate-IsGroups (add raw g) list next h reg = add_group-IsGroups raw g list h reg
mutate-IsGroups (update g) list next h reg = update_group-IsGroups g list h reg
mutate-IsGroups (remove id) list next h reg = remove_group-IsGroups id list h reg
mutate-IsGroups (drop member) list next h reg = drop_member-IsGroups member list h reg
mutate-IsGroups (join_groups member ids) list next h reg = add_member-IsGroups member ids list h reg
mutate-IsGroups (seed raw salt members) list next h reg =
    ensure_seeded-IsGroups raw salt members list h reg

-- The operations on a registry that keeps the rules are the mutations alone: no ID changes before.
pub apply_of_IsGroups :
    (raw : ℕ → Option (ℕ → ℕ)) (op : Op) (list : List Group)
    → IsGroups list
    → apply (raw, op) list ≡ mutate op list
unfolding apply
apply_of_IsGroups raw op list reg =
    let same =
      normalize_group_ids_self raw [] 0 list reg
        (All-of_All (λ (g : Group). All (λ u. u ≢ g.id) []) (λ g. tt) list) in
    ground (arith, same)

pub apply-IsGroups :
    (op : (ℕ → Option (ℕ → ℕ)) × Op) (list next : List Group)
    → apply op list ≡ ok next
    → IsGroups list
    → IsGroups next
apply-IsGroups (raw, op) list next h reg =
    mutate-IsGroups op list next (sym (apply_of_IsGroups raw op list reg) ∙ h) reg
