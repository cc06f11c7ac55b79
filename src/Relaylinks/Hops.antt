-- ===== src/Relaylinks/Hops.antt =====
-- Every published endpoint is one hop from its landing node, and what `Remove` leaves.
use singbox_deploy.Common.{
  ℕ, Text, none, some, List, [], ◌≡◌, ◌≢◌, ◌⊎◌, refl, sym, ◌∙◌, inl, inr, arith, Bool, true, false,
  select, ◌∷◌, beq_refl, find?-of-index_from-none, text_eq, ◌==◌, text_beq_iff, All, All-map,
  All-zip, AllPairs-map, All-of_AllPairs, ok, Option-cases, Bool-cases, if◌then◌else◌, normalize,
  is_empty, is_empty_iff, find?, index_from, index_from-some, index_from-none_of_All,
  select_none_of_All, remove_at, find?-remove_at_ne, find?-remove_at_unique,
}
use singbox_deploy.State.Entries.{Disk, stored_entries}
use singbox_deploy.State.Entries.Runs.{loaded, Reach}
use singbox_deploy.Relaylinks.Codec.{decode_link, encode_link}
use singbox_deploy.Relaylinks.Stored.{apply, Reach-IsRegistry}
use singbox_deploy.Relaylinks.{
  Link, index_of, remove_link, find_link, is_landing, is_relay, served_by,
}
use singbox_deploy.Relaylinks.Validity.{IsLink, Compatible}
use singbox_deploy.Relaylinks.Registry.{IsRegistry, IsNormal}
use singbox_deploy.Relaylinks.Queries.{
  fronts, find_link-find?, find_link_empty, index_of-index_from,
}

-- The one link is no hop before or after the other.
abbrev Unchained : Link → Link → Type 0
Unchained l m = (m.landing_id ≢ l.relay_id) × (m.relay_id ≢ l.landing_id)

Unchained-All : (list : List Link) → IsRegistry list → All (λ l. All (Unchained l) list) list
Unchained-All list reg =
    All-of_AllPairs Unchained list
      (AllPairs-map Compatible (λ a b. Unchained a b × Unchained b a)
        (λ a b c. (
          ((λ e. c.no_chain (sym e)), (λ e. c.no_chain_back (sym e))),
          (c.no_chain_back, c.no_chain),
        ))
        list reg.compatible)
      (All-map IsLink (λ l. Unchained l l) (λ l s. (s.not_self, λ e. s.not_self (sym e))) list
        reg.sound)

not-is_landing :
    (list : List Link) (id : Text)
    → normalize id ≡ id
    → All (λ (m : Link). m.landing_id ≢ id) list
    → is_landing list id ≡ false
unfolding is_landing index_of
not-is_landing list id normal h =
    rw
      (
        normal,
        index_from-none_of_All (fronts id) 0 list (
            All-map _ (λ m. fronts id m ≡ false)
              (λ m n. ground (arith, text_beq_iff m.landing_id id)) list h),
      )
      (ground arith)

not-is_relay :
    (list : List Link) (id : Text)
    → normalize id ≡ id
    → All (λ (m : Link). m.relay_id ≢ id) list
    → is_relay list id ≡ false
unfolding is_relay served_by
not-is_relay list id normal h =
    rw
      (
        normal,
        select_none_of_All (λ (m : Link). m.relay_id == id) list
            (All-map _ (λ m. (m.relay_id == id) ≡ false)
              (λ m n. ground (arith, text_beq_iff m.relay_id id)) list h),
      )
      (ground arith)

-- A search by a test that an element passes finds something.
find?_self :
    (list : List Link) → All (λ l. (p : Link → Bool) → p l ≡ true → find? p list ≢ none) list
unfolding find?
find?_self [] = tt
find?_self (l ∷ ls) = (
  λ p e none_found. absurd (ground arith),
  All-map _ (λ m. (p : Link → Bool) → p m ≡ true → find? p (l ∷ ls) ≢ none)
      (λ m h p e none_found. h p e (ground arith)) ls (find?_self ls),
)

find?-none_of_select :
    (p : Link → Bool) (list : List Link) → select p list ≡ [] → find? p list ≡ none
unfolding find? select
find?-none_of_select p [] h = refl
find?-none_of_select p (l ∷ ls) h = ground (arith, find?-none_of_select p ls)

landing-is_landing :
    (list : List Link) (id : Text)
    → normalize id ≡ id
    → id ≢ []
    → find? (fronts id) list ≢ none
    → is_landing list id ≡ true
unfolding is_landing
landing-is_landing list id normal named found =
    rw (normal, index_of-index_from list id named)
      (elim (Option-cases (index_from (fronts id) 0 list)) [
        | inl e ↦ absurd (found (find?-of-index_from-none (fronts id) 0 list e))
        | inr (i, e) ↦ rw e refl
      ])

relay-is_relay :
    (list : List Link) (id : Text)
    → normalize id ≡ id
    → id ≢ []
    → find? (λ (l : Link). l.relay_id == id) list ≢ none
    → is_relay list id ≡ true
unfolding is_relay served_by
relay-is_relay list id normal named found = elim (Bool-cases (is_empty id)) [
  | inl e ↦ absurd (named ((is_empty_iff id).0 e))
  | inr e ↦ elim (Bool-cases (is_empty (select (λ (l : Link). l.relay_id == id) list))) [
    | inl f ↦ absurd (
        found (
          find?-none_of_select (λ (l : Link). l.relay_id == id) list
            ((is_empty_iff (select (λ (l : Link). l.relay_id == id) list)).0 f)))
    | inr f ↦ rw (normal, e, f) refl
  ]
]

-- What the queries say of the two nodes of a link.
abbrev pub IsHop : List Link → Link → Type 0
IsHop list l =
    (is_landing list l.landing_id ≡ true)
    × (is_relay list l.relay_id ≡ true)
    × (is_landing list l.relay_id ≡ false)
    × (is_relay list l.landing_id ≡ false)

IsHop-All : (list : List Link) → IsRegistry list → All (IsHop list) list
IsHop-All list reg =
    All-zip (λ l. IsLink l × IsNormal l)
      (λ l. All (Unchained l) list × ((p : Link → Bool) → p l ≡ true → find? p list ≢ none))
      (IsHop list)
      (λ l (s, n) (u, found). (
        landing-is_landing list l.landing_id n.0 s.landing
            (found (fronts l.landing_id) (beq_refl l.landing_id)),
        relay-is_relay list l.relay_id n.1 s.relay
            (found (λ (m : Link). m.relay_id == l.relay_id) (beq_refl l.relay_id)),
        not-is_landing list l.relay_id n.1 (All-map (Unchained l) _ (λ m c. c.0) list u),
        not-is_relay list l.landing_id n.0 (All-map (Unchained l) _ (λ m c. c.1) list u),
      ))
      list (All-zip IsLink IsNormal _ (λ l s n. (s, n)) list reg.sound reg.normal)
      (All-zip (λ l. All (Unchained l) list)
        (λ l. (p : Link → Bool) → p l ≡ true → find? p list ≢ none) _ (λ l u f. (u, f)) list
        (Unchained-All list reg) (find?_self list))

-- From a disk without a registry, after any run of `Set`, `Remove` and `DropNode` in which the reads
-- of the field files succeed, whatever other call fails, and each of which leaves at most 999 links:
-- for every stored link, `IsLanding` holds of its landing node and `IsRelay` of its relay, and
-- neither `IsLanding` of the relay nor `IsRelay` of the landing node. Every relay is one hop from its
-- landing node.
pub Reach-IsHop :
    {d e : Disk}
    → d.dir ≡ none
    → Reach decode_link encode_link apply d e
    → All (IsHop (loaded decode_link encode_link apply e)) (loaded decode_link encode_link apply e)
unfolding stored_entries
Reach-IsHop {d} {e} fresh r =
    let start : IsRegistry (loaded decode_link encode_link apply d) =
      rw fresh (record { sound = tt; normal = tt; compatible = tt }) in
    IsHop-All (loaded decode_link encode_link apply e) (Reach-IsRegistry start r)

-- What `Remove` leaves: the same list, or the list without the entry that was found.
remove_link-stored :
    (landing_id : Text) (list : List Link) {next : List Link}
    → remove_link landing_id list ≡ ok next
    → ((index_of list (normalize landing_id) ≡ none) × (list ≡ next))
      ⊎ ((i : ℕ) × (index_of list (normalize landing_id) ≡ some i) × (remove_at list i ≡ next))
unfolding remove_link
remove_link-stored landing_id list h = elim (Option-cases (index_of list (normalize landing_id))) [
  | inl absent ↦ inl (absent, ground arith)
  | inr (i, found) ↦ inr (i, found, ground arith)
]

find?-remove :
    (list : List Link) (gone id : Text) (i : ℕ)
    → index_from (fronts gone) 0 list ≡ some i
    → IsRegistry list
    → find? (fronts id) (remove_at list i) ≡ (if id == gone then none else find? (fronts id) list)
find?-remove list gone id i found reg =
    let (j, x, at, got, holds, first) = index_from-some (fronts gone) 0 list {k = i} found in
    elim (Bool-cases (id == gone)) [
      | inl same ↦
          let e = (text_beq_iff id gone).0 same in
          rw same (
            rw e (
              find?-remove_at_unique (fronts gone) i list {x = x} (ground arith) holds (
                AllPairs-map Compatible _
                  (λ a b c p. ground (
                    arith,
                    c.landings,
                    text_beq_iff a.landing_id gone,
                    text_beq_iff b.landing_id gone,
                  ))
                  list reg.compatible)))
      | inr other ↦ rw other (
          find?-remove_at_ne (fronts id) i list {x = x} (ground arith) (
            ground (
              arith,
              text_beq_iff id gone,
              text_beq_iff x.landing_id gone,
              text_beq_iff x.landing_id id,
            )))
    ]

find_link_absent :
    (list : List Link) (id : Text) → index_of list (normalize id) ≡ none → find_link list id ≡ none
unfolding find_link
find_link_absent list id h = rw h refl

index_of_named : (list : List Link) (id : Text) {i : ℕ} → index_of list id ≡ some i → id ≢ []
unfolding index_of
index_of_named list id h = λ e. ground (arith, is_empty_iff id)

-- In a registry, after `Remove`, `Find` returns nothing for the landing node, and for every other
-- node what it returned before.
pub find_link-remove_link :
    (landing_id : Text) (list : List Link) (id : Text) {next : List Link}
    → remove_link landing_id list ≡ ok next
    → IsRegistry list
    → find_link next id ≡ (if normalize id == normalize landing_id then none else find_link list id)
find_link-remove_link landing_id list id {next} h reg =
    elim (remove_link-stored landing_id list h) [
      | inl (absent, same) ↦ rw (← same) (elim (Bool-cases (normalize id == normalize landing_id)) [
        | inl e ↦ rw e (
            find_link_absent list id
              (rw ((text_beq_iff (normalize id) (normalize landing_id)).0 e) absent))
        | inr e ↦ rw e refl
      ])
      | inr (i, found, removed) ↦
          let gone = normalize landing_id in
          let named = index_of_named list gone {i = i} found in
          rw (← removed) (elim (Bool-cases (is_empty (normalize id))) [
            | inl e ↦
                let empty = (is_empty_iff (normalize id)).0 e in
                ground (
                  arith,
                  find_link_empty (remove_at list i) id empty,
                  find_link_empty list id empty,
                  text_beq_iff (normalize id) gone,
                )
            | inr e ↦
                let given : normalize id ≢ [] = λ n. ground (arith, is_empty_iff (normalize id)) in
                rw (find_link-find? (remove_at list i) id given, find_link-find? list id given)
                  (find?-remove list gone (normalize id) i
                    (sym (index_of-index_from list gone named) ∙ found) reg)
          ])
    ]
