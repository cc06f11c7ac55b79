-- ===== src/Relaylinks/Queries.antt =====
-- What the queries return after the operations.
use singbox_deploy.Common.{
  ℕ, Text, none, some, List, [], ◌∷◌, ◌++◌, ◌≡◌, ◌≢◌, ◌⊎◌, refl, sym, ◌∙◌, inl, inr, arith, Bool,
  true, false, not, ◌&&◌, text_eq, ◌==◌, text_beq_iff, beq_refl, ok, Option-cases, Bool-cases,
  if◌then◌else◌, normalize, set, select, is_empty, is_empty_iff, contains, map, find?, index_from,
  at_index-index_from, index_from-some, find?-of-index_from-none, find?-set_self, find?-set_ne,
  find?-append, find?-append_self,
}
use singbox_deploy.Relaylinks.{
  Link, normalized, index_of, set_link, is_orphan, seen_after, drop_loop, drop_node, find_link,
}
use singbox_deploy.Relaylinks.Validate.{validate_iff}
use singbox_deploy.Relaylinks.Registry.{spares, drop_loop-select}

abbrev pub fronts : Text → Link → Bool
fronts id l = l.landing_id == id

-- `Find` returns the first link that fronts a node.
pub find_link-find? :
    (list : List Link) (id : Text)
    → normalize id ≢ []
    → find_link list id ≡ find? (fronts (normalize id)) list
unfolding find_link index_of
find_link-find? list id named = elim (Bool-cases (is_empty (normalize id))) [
  | inl e ↦ absurd (named ((is_empty_iff (normalize id)).0 e))
  | inr e ↦ rw e (at_index-index_from (fronts (normalize id)) list)
]

-- The index of a named node is that of the search.
pub index_of-index_from :
    (list : List Link) (id : Text) → id ≢ [] → index_of list id ≡ index_from (fronts id) 0 list
unfolding index_of
index_of-index_from list id named = ground (arith, is_empty_iff id)

fronts_self : (l : Link) → fronts l.landing_id l ≡ true
fronts_self l = beq_refl l.landing_id

-- The entry that a search finds in a list that was extended, or changed where it fronts the node.
find?-stored_new :
    (list : List Link) (link : Link) (id : Text)
    → index_from (fronts link.landing_id) 0 list ≡ none
    → find? (fronts id) (list ++ link ∷ [])
      ≡ (if id == link.landing_id then some link else find? (fronts id) list)
find?-stored_new list link id new = elim (Bool-cases (id == link.landing_id)) [
  | inl same ↦
      let e = (text_beq_iff id link.landing_id).0 same in
      rw same (
        rw e (
          find?-append_self (fronts link.landing_id) list link
            (find?-of-index_from-none (fronts link.landing_id) 0 list new) (fronts_self link)))
  | inr other ↦ rw other (
      find?-append (fronts id) list link
        (ground (arith, text_beq_iff id link.landing_id, text_beq_iff link.landing_id id)))
]

find?-stored_old :
    (list : List Link) (link : Link) (id : Text) (i : ℕ)
    → index_from (fronts link.landing_id) 0 list ≡ some i
    → find? (fronts id) (set list i link)
      ≡ (if id == link.landing_id then some link else find? (fronts id) list)
find?-stored_old list link id i old = elim (Bool-cases (id == link.landing_id)) [
  | inl same ↦
      let e = (text_beq_iff id link.landing_id).0 same in
      rw same (
        rw e (
          find?-set_self (fronts link.landing_id) 0 i list link {k = i} old (omega arith)
            (fronts_self link)))
  | inr other ↦
      let (j, x, at, got, holds, found) =
        index_from-some (fronts link.landing_id) 0 list {k = i} old in
      rw other (
        find?-set_ne (fronts id) i list link {x = x} (ground arith)
          (ground (
            arith,
            text_beq_iff id link.landing_id,
            text_beq_iff x.landing_id link.landing_id,
            text_beq_iff x.landing_id id,
          ))
          (ground (arith, text_beq_iff id link.landing_id, text_beq_iff link.landing_id id)))
]

-- What `Set` stores: the normal form, valid, at the end or in the place of the old link.
set_link-stored :
    (given : Link) (list : List Link) {next : List Link}
    → set_link given list ≡ ok next
    → ((normalized given).landing_id ≢ [])
      × (((index_of list (normalized given).landing_id ≡ none)
            × (list ++ normalized given ∷ [] ≡ next))
          ⊎ ((i : ℕ) × (index_of list (normalized given).landing_id ≡ some i)
              × (set list i (normalized given) ≡ next)))
unfolding set_link
set_link-stored given list {next} h =
    let link = normalized given in
    elim (Option-cases (index_of list link.landing_id)) [
      | inl new ↦
          (((validate_iff list link none).0 (ground arith)).0.landing, inl (new, ground arith))
      | inr (i, old) ↦ (
        ((validate_iff list link (some i)).0 (ground arith)).0.landing,
        inr (i, old, ground arith),
      )
    ]

find?-set_link :
    (given : Link) (list : List Link) (id : Text) {next : List Link}
    → set_link given list ≡ ok next
    → find? (fronts id) next ≡ (
        if id == (normalized given).landing_id
        then some (normalized given)
        else find? (fronts id) list)
find?-set_link given list id {next} h =
    let link = normalized given in
    let (named, cases) = set_link-stored given list h in
    elim cases [
      | inl (new, stored) ↦ rw (← stored) (
          find?-stored_new list link id
            (sym (index_of-index_from list link.landing_id named) ∙ new))
      | inr (i, old, stored) ↦ rw (← stored) (
          find?-stored_old list link id i
            (sym (index_of-index_from list link.landing_id named) ∙ old))
    ]

pub find_link_empty : (list : List Link) (id : Text) → normalize id ≡ [] → find_link list id ≡ none
unfolding find_link index_of
find_link_empty list id e = rw e refl

-- After a `Set` that succeeds, `Find` returns the normalized link for its landing node, and for
-- every other node what it returned before.
pub find_link-set_link :
    (given : Link) (list : List Link) (id : Text) {next : List Link}
    → set_link given list ≡ ok next
    → find_link next id ≡ (
        if normalize id == (normalized given).landing_id
        then some (normalized given)
        else find_link list id)
find_link-set_link given list id {next} h = elim (Bool-cases (is_empty (normalize id))) [
  | inl e ↦
      let none_named = (is_empty_iff (normalize id)).0 e in
      ground (
        arith,
        find_link_empty next id none_named,
        find_link_empty list id none_named,
        (set_link-stored given list h).0,
        text_beq_iff (normalize id) (normalized given).landing_id,
      )
  | inr e ↦
      let named : normalize id ≢ [] = λ n. ground (arith, is_empty_iff (normalize id)) in
      rw (find_link-find? next id named, find_link-find? list id named)
        (find?-set_link given list (normalize id) h)
]

-- The relays that `DropNode` reports: those of the links that fronted the node, each once.
pub drop_loop-orphans :
    (node : Text) (seen : List Text) (list : List Link) (p : Text)
    → contains (drop_loop node seen list).0 p ≡ (
        contains (map (λ (l : Link). l.relay_id) (select (fronts node) list)) p
        && (not (p == node) && not (contains seen p)))
unfolding drop_loop select contains is_orphan seen_after
drop_loop-orphans node seen [] p = refl
drop_loop-orphans node seen (l ∷ ls) p = ground (
  arith,
  drop_loop-orphans node (seen_after node seen l) ls p,
  text_beq_iff l.relay_id p,
  text_beq_iff l.relay_id node,
  text_beq_iff p node,
)

not-contains_nil : (p : Text) → contains [] p ≡ false
unfolding contains
not-contains_nil p = refl

-- `DropNode` of a named node keeps exactly the links that name it on neither side, in their order,
-- and reports exactly the relays of the links that fronted it, but never the node itself.
pub drop_node_reports :
    (node_id : Text) (list : List Link)
    → normalize node_id ≢ []
    → ((drop_node node_id list).1 ≡ select (spares (normalize node_id)) list)
      × ((p : Text)
          → contains (drop_node node_id list).0 p ≡ (
              contains (map (λ (l : Link). l.relay_id) (select (fronts (normalize node_id)) list)) p
              && not (p == normalize node_id)))
unfolding drop_node
drop_node_reports node_id list named = elim (Bool-cases (is_empty (normalize node_id))) [
  | inl e ↦ absurd (named ((is_empty_iff (normalize node_id)).0 e))
  | inr e ↦ rw e (
    drop_loop-select (normalize node_id) [] list,
    λ p. ground (arith, drop_loop-orphans (normalize node_id) [] list p, not-contains_nil p),
  )
]
