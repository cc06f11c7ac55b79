-- ===== src/Nodes/Reorder.antt =====
-- internal/nodes/nodes.go: `Reorder`, and that it is a rearrangement with the named nodes in front.
use singbox_deploy.Common.{
  Text, text_eq, ◌==◌, text_beq_iff, Bool, true, false, not, ◌&&◌, Option, none, some, List, [],
  ◌∷◌, ◌++◌, map, ◌≡◌, ◌≢◌, refl, sym, ap, ◌∙◌, inl, inr, arith, All, AllPairs, AllPairs-select,
  AllPairs-map, All-Rearranged, AllPairs-Rearranged, Rearranged, Rearranged-refl, Rearranged-middle,
  Rearranged-append, select_of_All, select-select, select, contains, not-contains_iff, normalize,
  is_empty, Bool-cases, Option-cases, Result-cases, if◌then◌else◌, Result, ok, err, All-map,
}
use singbox_deploy.Nodes.{Node, NodeError, no_id, repeated_id, not_found, Platform}
use singbox_deploy.Nodes.Rules.{IsNodes, Distinct, Distinct-symm}

-- The map `byID`: a later node takes the place of an earlier one.
unfoldable pub by_id : List Node → Text → Option Node
by_id [] id = none
by_id (n ∷ ns) id = elim (by_id ns id) [
  | some m ↦ some m
  | none ↦ if n.id == id then some n else none
]

-- The first loop, before the transaction.
unfoldable pub normalize_request : List Text → List Text → Result NodeError (List Text)
normalize_request seen [] = ok []
normalize_request seen (id ∷ ids) =
    let v = normalize id in
    let rest = normalize_request (v ∷ seen) ids in
    if is_empty v
    then err no_id
    else if contains seen v
    then err repeated_id
    else elim rest [ err e ↦ err e | ok vs ↦ ok (v ∷ vs) ]

unfoldable pub pick : List Node → List Text → Result NodeError (List Node)
pick list [] = ok []
pick list (id ∷ ids) = elim (by_id list id) [
  | none ↦ err not_found
  | some n ↦ elim (pick list ids) [ err e ↦ err e | ok ns ↦ ok (n ∷ ns) ]
]

abbrev pub unlisted : List Text → Node → Bool
unlisted ids n = not (contains ids n.id)

unfoldable pub reorder_nodes : List Text → List Node → Result NodeError (List Node)
reorder_nodes ordered list = elim (normalize_request [] ordered) [
  | err e ↦ err e
  | ok ids ↦ elim (pick list ids) [
    | err e ↦ err e
    | ok picked ↦ ok (picked ++ select (unlisted ids) list)
  ]
]

abbrev Apart : Node → Node → Type 0
Apart a b = a.id ≢ b.id

by_id-none :
    (list : List Node) (id : Text) → All (λ (n : Node). n.id ≢ id) list → by_id list id ≡ none
unfolding by_id
by_id-none [] id h = refl
by_id-none (n ∷ ns) id h = ground (arith, by_id-none ns id h.1, text_beq_iff n.id id, h.0)

-- The node that an ID names comes to the front of the others.
pull :
    (list : List Node) (id : Text) (n : Node)
    → AllPairs Apart list
    → by_id list id ≡ some n
    → Rearranged list (n ∷ select (λ (m : Node). not (m.id == id)) list) × (n.id ≡ id)
unfolding by_id select
pull [] id n h found = absurd (ground arith)
pull (m ∷ ms) id n h found = elim (Bool-cases (m.id == id)) [
  | inl e ↦
      let same_id : m.id ≡ id = (text_beq_iff m.id id).0 e in
      let others : All (λ (x : Node). x.id ≢ id) ms =
        All-map (Apart m) (λ (x : Node). x.id ≢ id) (λ x d z. d (same_id ∙ sym z)) ms h.0 in
      let gone = by_id-none ms id others in
      let same : m ≡ n = ground arith in
      let all_stay =
        select_of_All (λ (x : Node). not (x.id == id)) ms
          (All-map (λ (x : Node). x.id ≢ id) (λ (x : Node). not (x.id == id) ≡ true)
            (λ x d. ground (arith, text_beq_iff x.id id)) ms others) in
      rw (e, all_stay, ← same) (Rearranged-refl (m ∷ ms), same_id)
  | inr e ↦
      let (r, id_e) = pull ms id n h.1 (ground arith) in
      rw e (
        Rearranged.follow (Rearranged.keep m r)
            (Rearranged.swap m n (select (λ (x : Node). not (x.id == id)) ms)),
        id_e,
      )
]

by_id-select :
    (list : List Node) (ids : List Text) (id : Text)
    → contains ids id ≡ false
    → by_id (select (unlisted ids) list) id ≡ by_id list id
unfolding by_id select
by_id-select [] ids id h = refl
by_id-select (n ∷ ns) ids id h = elim (Bool-cases (n.id == id)) [
  | inl e ↦
      let same : n.id ≡ id = (text_beq_iff n.id id).0 e in
      let stays : contains ids n.id ≡ false = rw same h in
      rw stays (ground (arith, by_id-select ns ids id h, e))
  | inr e ↦ elim (Bool-cases (contains ids n.id)) [
    | inl gone ↦ rw gone (ground (arith, by_id-select ns ids id h, e))
    | inr stays ↦ rw stays (ground (arith, by_id-select ns ids id h, e))
  ]
]

select_none : (list : List Node) → select (unlisted []) list ≡ list
unfolding contains
select_none list = select_of_All (unlisted []) list (all list)
  where
    all : (xs : List Node) → All (λ n. unlisted [] n ≡ true) xs
    all [] = tt
    all (x ∷ xs) = (refl, all xs)

unlisted-cons :
    (id : Text) (ids : List Text) (n : Node)
    → (not (n.id == id) && unlisted ids n) ≡ unlisted (id ∷ ids) n
unfolding contains
unlisted-cons id ids n = ground (arith, text_beq_iff n.id id, text_beq_iff id n.id)

-- What the second loop picks stands before the rest, as a rearrangement.
pick-Rearranged :
    (list : List Node) (ids : List Text) (picked : List Node)
    → AllPairs Apart list
    → AllPairs ◌≢◌ ids
    → pick list ids ≡ ok picked
    → Rearranged list (picked ++ select (unlisted ids) list)
      × (map (λ (n : Node). n.id) picked ≡ ids)
unfolding pick
pick-Rearranged list [] picked h ids_apart e =
    let nothing : [] ≡ picked = ground arith in
    rw (← nothing, select_none list) (Rearranged-refl list, refl)
pick-Rearranged list (id ∷ ids) picked h ids_apart e = elim (Option-cases (by_id list id)) [
  | inl missing ↦ absurd (ground arith)
  | inr (n, found) ↦ elim (Result-cases (pick list ids)) [
    | inr (x, failed) ↦ absurd (ground arith)
    | inl (ns, got) ↦
        let (r, names) = pick-Rearranged list ids ns h ids_apart.1 got in
        let stored : n ∷ ns ≡ picked = ground arith in
        let new : contains ids id ≡ false =
          (not-contains_iff ids id).1
            (All-map (◌≢◌ id) (λ x. x ≢ id) (λ x d z. d (sym z)) ids ids_apart.0) in
        let (front, id_e) =
          pull (select (unlisted ids) list) id n (AllPairs-select Apart (unlisted ids) list h)
            (by_id-select list ids id new ∙ found) in
        let twice =
          select-select (λ (m : Node). not (m.id == id)) (unlisted ids) (unlisted (id ∷ ids)) list
            (unlisted-cons id ids) in
        let front' = rw twice at front in
        rw (← stored) (
          Rearranged.follow r (
              Rearranged.follow (Rearranged-append ns front')
                (Rearranged-middle ns n (select (unlisted (id ∷ ids)) list))),
          λ i. id_e i ∷ names i,
        )
  ]
]

later :
    (v : Text) (s ws : List Text) → All (λ w. contains (v ∷ s) w ≡ false) ws → All (λ w. v ≢ w) ws
unfolding contains
later v s [] h = tt
later v s (w ∷ ws) h = (λ z. ground (arith, text_beq_iff v w, h.0), later v s ws h.1)

earlier :
    (v : Text) (s ws : List Text)
    → All (λ w. contains (v ∷ s) w ≡ false) ws
    → All (λ w. contains s w ≡ false) ws
unfolding contains
earlier v s [] h = tt
earlier v s (w ∷ ws) h = (ground (arith, h.0), earlier v s ws h.1)

normalize_request_lem :
    (seen ids vs : List Text)
    → normalize_request seen ids ≡ ok vs
    → (vs ≡ map normalize ids) × AllPairs ◌≢◌ vs × All (λ v. contains seen v ≡ false) vs
unfolding normalize_request
normalize_request_lem seen [] vs h = let e : [] ≡ vs = ground arith in rw (← e) (refl, tt, tt)
normalize_request_lem seen (id ∷ ids) vs h =
    elim (Result-cases (normalize_request (normalize id ∷ seen) ids)) [
      | inr (x, failed) ↦ absurd (ground arith)
      | inl (ws, got) ↦
          let (names, apart, fresh) = normalize_request_lem (normalize id ∷ seen) ids ws got in
          let e : normalize id ∷ ws ≡ vs = ground arith in
          let new : contains seen (normalize id) ≡ false = ground arith in
          rw (← e) (
            ap (◌∷◌ (normalize id)) names,
            (later (normalize id) seen ws fresh, apart),
            (new, earlier (normalize id) seen ws fresh),
          )
    ]

-- From a registry that keeps the rules, `Reorder` returns a rearrangement of it: the named nodes in
-- the named order, then the others in the order that they had.
pub reorder_nodes-Rearranged :
    (os : Platform) (ordered : List Text) (list next : List Node)
    → IsNodes os list
    → reorder_nodes ordered list ≡ ok next
    → Rearranged list next
      × ((picked : List Node) × (next ≡ picked ++ select (unlisted (map normalize ordered)) list)
          × (map (λ (n : Node). n.id) picked ≡ map normalize ordered))
unfolding reorder_nodes
reorder_nodes-Rearranged os ordered list next reg h =
    elim (Result-cases (normalize_request [] ordered)) [
      | inr (x, failed) ↦ absurd (ground arith)
      | inl (ids, got) ↦ elim (Result-cases (pick list ids)) [
        | inr (x, failed) ↦ absurd (ground arith)
        | inl (picked, taken) ↦
            let (names, apart, fresh) = normalize_request_lem [] ordered ids got in
            let (r, ids_e) =
              pick-Rearranged list ids picked
                (AllPairs-map (Distinct os) Apart (λ a b d. d.ids) list reg.distinct) apart taken in
            let e : picked ++ select (unlisted ids) list ≡ next = ground arith in
            rw (← e, ← names) (r, (picked, refl, ids_e))
      ]
    ]

pub reorder_nodes-IsNodes :
    (os : Platform) (ordered : List Text) (list : List Node) {next : List Node}
    → reorder_nodes ordered list ≡ ok next
    → IsNodes os list
    → IsNodes os next
reorder_nodes-IsNodes os ordered list {next} h reg =
    let (r, more) = reorder_nodes-Rearranged os ordered list next reg h in
    record {
      sound = All-Rearranged _ r reg.sound;
      distinct = AllPairs-Rearranged (Distinct os) (Distinct-symm os) r reg.distinct;
    }
