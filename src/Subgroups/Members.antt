-- ===== src/Subgroups/Members.antt =====
-- The members of the groups, and the group that is always left.
use singbox_deploy.Common.{
  ℕ, zero, suc, Text, text_eq, ◌==◌, text_beq_iff, Bool, false, not, ◌&&◌, ◌||◌, List, [], ◌∷◌,
  ◌++◌, map, length, ◌≡◌, ◌≢◌, refl, arith, ok, Option-cases, Bool-cases, inl, inr, normalize,
  normalize_idem, select, contains, set, remove_at, is_empty, is_empty_iff,
}
use singbox_deploy.Subgroups.{
  Group, Op, add, update, remove, drop, join_groups, seed, mutate, has_member, drop_from,
  drop_member, add_to, wanted_ids, add_member, add_group, update_group, remove_group, ensure_seeded,
  assigned_id, index_of,
}

contains-select_other :
    (id member : Text) (ms : List Text)
    → contains (map normalize (select (λ (m : Text). not (normalize m == member)) ms)) id
      ≡ (contains (map normalize ms) id && not (id == member))
unfolding contains select
contains-select_other id member [] = refl
contains-select_other id member (m ∷ ms) = ground (
  arith,
  contains-select_other id member ms,
  text_beq_iff (normalize m) member,
  text_beq_iff (normalize m) id,
  text_beq_iff id member,
)

-- Dropping a member takes it, in any spelling, out of every group, and leaves all other members.
pub has_member-drop_from :
    (member_id id : Text) (g : Group)
    → has_member (drop_from (normalize member_id) g) id
      ≡ (has_member g id && not (normalize id == normalize member_id))
unfolding has_member drop_from
has_member-drop_from member_id id g =
    ground (arith, contains-select_other (normalize id) (normalize member_id) g.members)

contains-append :
    (id member : Text) (ms : List Text)
    → contains (map normalize (ms ++ member ∷ [])) id
      ≡ (contains (map normalize ms) id || (normalize member == id))
unfolding contains
contains-append id member [] = ground arith
contains-append id member (m ∷ ms) = ground (arith, contains-append id member ms)

-- Adding a member puts it, in any spelling, into every wanted group and nothing else anywhere.
pub has_member-add_to :
    (member_id id : Text) (wanted : List Text) (g : Group)
    → normalize member_id ≢ []
    → has_member (add_to (normalize member_id) wanted g) id
      ≡ (has_member g id || (contains wanted g.id && (normalize id == normalize member_id)))
unfolding has_member add_to
has_member-add_to member_id id wanted g h = ground (
  arith,
  normalize_idem member_id,
  contains-append (normalize id) (normalize member_id) g.members,
  text_beq_iff (normalize member_id) (normalize id),
  text_beq_iff (normalize id) (normalize member_id),
  is_empty_iff (normalize id),
  is_empty_iff (normalize member_id),
)

has_member_no_id :
    (g : Group) (id none_id : Text)
    → none_id ≡ []
    → has_member g id ≡ (has_member g id && not (normalize id == none_id))
unfolding has_member
has_member_no_id g id none_id e =
    ground (arith, is_empty_iff (normalize id), text_beq_iff (normalize id) none_id)

wants_none : (g : Group) (b c : Bool) → b ≡ (b || (contains (wanted_ids []) g.id && c))
unfolding contains wanted_ids select
wants_none g b c = ground arith

map-map_same :
    (f : Group → Group) (p q : Group → Bool) (list : List Group)
    → ((g : Group) → p (f g) ≡ q g)
    → map p (map f list) ≡ map q list
map-map_same f p q [] h = refl
map-map_same f p q (g ∷ gs) h = λ i. h g i ∷ map-map_same f p q gs h i

map_same :
    (p q : Group → Bool) (list : List Group) → ((g : Group) → p g ≡ q g) → map p list ≡ map q list
map_same p q [] h = refl
map_same p q (g ∷ gs) h = λ i. h g i ∷ map_same p q gs h i

-- After `DropMember` a group has exactly the members that it had, in any spelling, but the dropped
-- one; an empty ID drops nobody.
pub drop_member_members :
    (member_id id : Text) (list next : List Group)
    → drop_member member_id list ≡ ok next
    → map (λ g. has_member g id) next
      ≡ map (λ g. has_member g id && not (normalize id == normalize member_id)) list
unfolding drop_member
drop_member_members member_id id list next h = elim (Bool-cases (is_empty (normalize member_id))) [
  | inl e ↦
      let stored : list ≡ next = ground arith in
      rw (← stored) (
        map_same (λ g. has_member g id)
          (λ g. has_member g id && not (normalize id == normalize member_id)) list
          (λ g.
            has_member_no_id g id (normalize member_id)
              (ground (arith, is_empty_iff (normalize member_id)))))
  | inr e ↦
      let stored : map (drop_from (normalize member_id)) list ≡ next = ground arith in
      rw (← stored) (
        map-map_same (drop_from (normalize member_id)) (λ g. has_member g id)
          (λ g. has_member g id && not (normalize id == normalize member_id)) list
          (has_member-drop_from member_id id))
]

-- After `AddMember` of an ID that is not empty, a group has exactly the members that it had, in any
-- spelling, and the added one if the group is among the named ones.
pub add_member_members :
    (member_id id : Text) (group_ids : List Text) (list next : List Group)
    → normalize member_id ≢ []
    → add_member member_id group_ids list ≡ ok next
    → map (λ g. has_member g id) next
      ≡ map
          (λ (g : Group).
            has_member g id
            || (contains (wanted_ids group_ids) g.id && (normalize id == normalize member_id)))
          list
unfolding add_member
add_member_members member_id id [] list next some_id h =
    let stored : list ≡ next = ground (arith, is_empty_iff (normalize member_id)) in
    rw (← stored) (
      map_same (λ g. has_member g id)
        (λ (g : Group).
          has_member g id
          || (contains (wanted_ids []) g.id && (normalize id == normalize member_id)))
        list (λ g. wants_none g (has_member g id) (normalize id == normalize member_id)))
add_member_members member_id id (group_id ∷ ids) list next some_id h =
    let stored : map (add_to (normalize member_id) (wanted_ids (group_id ∷ ids))) list ≡ next =
      ground (arith, is_empty_iff (normalize member_id)) in
    rw (← stored) (
      map-map_same (add_to (normalize member_id) (wanted_ids (group_id ∷ ids)))
        (λ g. has_member g id)
        (λ (g : Group).
          has_member g id
          || (contains (wanted_ids (group_id ∷ ids)) g.id && (normalize id == normalize member_id)))
        list (λ g. has_member-add_to member_id id (wanted_ids (group_id ∷ ids)) g some_id))

is_empty-append : (list : List Group) (g : Group) → is_empty (list ++ g ∷ []) ≡ false
is_empty-append [] g = refl
is_empty-append (x ∷ list) g = refl

is_empty-set : (list : List Group) (i : ℕ) (g : Group) → is_empty (set list i g) ≡ is_empty list
is_empty-set [] i g = refl
is_empty-set (x ∷ list) zero g = refl
is_empty-set (x ∷ list) (suc i) g = refl

is_empty-map : (f : Group → Group) (list : List Group) → is_empty (map f list) ≡ is_empty list
is_empty-map f [] = refl
is_empty-map f (x ∷ list) = refl

is_empty-remove_at :
    (list : List Group) (i : ℕ)
    → is_empty list ≡ false
    → length list ≢ 1
    → is_empty (remove_at list i) ≡ false
is_empty-remove_at [] i h more = h
is_empty-remove_at (x ∷ []) i h more = absurd (more refl)
is_empty-remove_at (x ∷ y ∷ list) zero h more = refl
is_empty-remove_at (x ∷ y ∷ list) (suc i) h more = refl

-- An operation on a registry with a group leaves one with a group.
pub mutate_keeps_some :
    (op : Op) (list next : List Group)
    → is_empty list ≡ false
    → mutate op list ≡ ok next
    → is_empty next ≡ false
unfolding mutate add_group update_group remove_group drop_member add_member ensure_seeded
mutate_keeps_some (add raw g) list next some_group h = elim (Option-cases (assigned_id raw g.id)) [
  | inl e ↦ absurd (ground arith)
  | inr (id, e) ↦ ground (arith, is_empty-append list (record g { id = id }))
]
mutate_keeps_some (update g) list next some_group h =
    elim (Option-cases (index_of list (normalize g.id))) [
      | inl e ↦ absurd (ground arith)
      | inr (i, e) ↦ ground (arith, is_empty-set list i (record g { id = normalize g.id }))
    ]
mutate_keeps_some (remove id) list next some_group h =
    elim (Option-cases (index_of list (normalize id))) [
      | inl e ↦ ground arith
      | inr (i, e) ↦ ground (arith, is_empty-remove_at list i some_group)
    ]
mutate_keeps_some (drop member) list next some_group h =
    ground (arith, is_empty-map (drop_from (normalize member)) list)
mutate_keeps_some (join_groups member ids) list next some_group h =
    ground (arith, is_empty-map (add_to (normalize member) (wanted_ids ids)) list)
mutate_keeps_some (seed raw salt members) list next some_group h = ground arith
