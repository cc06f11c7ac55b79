-- ===== src/Relaylinks/Ports/Allocate.antt =====
-- What `AllocateForwards` returns can be stored.
use singbox_deploy.Common.{
  ℕ, ◌%◌, ◌≡◌, ◌≢◌, refl, ap, arith, Text, List, [], ◌∷◌, map, Option, none, some, false,
  not-contains_iff, select, ℤ, pos, int_eq, text_eq, Option-cases, Result-cases, inl, inr, IsPort,
  All, All-map, All-append_split, All-of_select, All-zip, All-swap, negsuc, AllPairs, ok,
}
use singbox_deploy.Relaylinks.{Forward, Link, network_for, served_by}
use singbox_deploy.Relaylinks.Validity.{IsForward, Disjoint}
use singbox_deploy.Relaylinks.Ports.{
  random_relay_port, span, draw_port, allocate_loop, allocate_forwards, used_ports, link_ports,
  is_positive,
}
use singbox_deploy.Relaylinks.Ports.Draw.{random_relay_port_fresh}

-- The port is off all those that are used.
abbrev pub Unused : List ℤ → Forward → Type 0
Unused used f = All (λ p. p ≢ f.relay_port) used

draw_port_fresh :
    (d : Option ℕ) (used : List ℤ) {p : ℤ}
    → draw_port d used ≡ ok p
    → IsPort p × All (λ q. q ≢ p) used
unfolding draw_port
draw_port_fresh none used h = absurd (ground arith)
draw_port_fresh (some offset) used {p} h =
    elim (Option-cases (random_relay_port (offset % span) used)) [
      | inl e ↦ absurd (ground arith)
      | inr (q, e) ↦
          let (n, at, lo, hi, free) = random_relay_port_fresh (offset % span) used {p = q} e in
          let same : p ≡ q = ground arith in
          rw same ((rw at (omega arith, omega arith)), (not-contains_iff used q).0 free)
    ]

-- The result of the loop: what each forward is, that no port is used twice, and the protocols.
pub record Allocated (used : List ℤ) (targets : List Text) (fs : List Forward) : Type 0 where
  pub sound : All IsForward fs
  pub unused : All (Unused used) fs
  pub apart : AllPairs (λ (f g : Forward). f.relay_port ≢ g.relay_port) fs
  pub protocols : map (λ (f : Forward). f.protocol) fs ≡ targets

allocate_loop_step :
    (d : Option ℕ) (draws : List (Option ℕ)) (used : List ℤ) (t : Text) (ts : List Text)
    {fs : List Forward}
    → allocate_loop (d ∷ draws) used (t ∷ ts) ≡ ok fs
    → (network : Text) × (port : ℤ) × (rest : List Forward) × (network_for t ≡ some network)
      × (draw_port d used ≡ ok port)
      × (allocate_loop draws (port ∷ used) ts ≡ ok rest)
      × (fs ≡ record { protocol = t; network = network; relay_port = port } ∷ rest)
unfolding allocate_loop
allocate_loop_step d draws used t ts h = elim (Option-cases (network_for t)) [
  | inl e ↦ absurd (ground arith)
  | inr (network, known) ↦ elim (Result-cases (draw_port d used)) [
    | inr (e, p) ↦ absurd (ground arith)
    | inl (port, drawn) ↦ elim (Result-cases (allocate_loop draws (port ∷ used) ts)) [
      | inr (e, p) ↦ absurd (ground arith)
      | inl (rest, p) ↦ (network, port, rest, known, drawn, p, ground arith)
    ]
  ]
]

allocate_loop-Allocated :
    (draws : List (Option ℕ)) (used : List ℤ) (targets : List Text) {fs : List Forward}
    → allocate_loop draws used targets ≡ ok fs
    → Allocated used targets fs
unfolding allocate_loop
allocate_loop-Allocated draws used [] {fs} h =
    let none_left : fs ≡ [] = ground arith in
    rw none_left (record { sound = tt; unused = tt; apart = tt; protocols = refl })
allocate_loop-Allocated [] used (t ∷ ts) h = elim (Option-cases (network_for t)) [
  | inl e ↦ absurd (ground arith)
  | inr (network, known) ↦ absurd (ground arith)
]
allocate_loop-Allocated (d ∷ draws) used (t ∷ ts) h =
    let (network, port, rest, known, drawn, p, e) = allocate_loop_step d draws used t ts h in
    let fresh = draw_port_fresh d used drawn in
    let ih = allocate_loop-Allocated draws (port ∷ used) ts p in
    rw e (record {
      sound = ((known, fresh.0), ih.sound);
      unused = (fresh.1, All-map (Unused (port ∷ used)) (Unused used) (λ f u. u.1) rest ih.unused);
      apart = (All-map (Unused (port ∷ used)) _ (λ f u. u.0) rest ih.unused, ih.apart);
      protocols = ap (◌∷◌ t) ih.protocols;
    })

All-link_ports :
    (p : ℤ) (ls : List Link)
    → All (λ q. q ≢ p) (link_ports ls)
    → All (λ (l : Link). All (λ (f : Forward). f.relay_port ≢ p) l.forwards) ls
unfolding link_ports
All-link_ports p [] h = tt
All-link_ports p (l ∷ ls) h =
    let (own, others) =
      All-append_split (λ q. q ≢ p) (map (λ (f : Forward). f.relay_port) l.forwards) (link_ports ls)
        h in
    (All_of_map l.forwards own, All-link_ports p ls others)
  where
    All_of_map :
        (fs : List Forward)
        → All (λ q. q ≢ p) (map (λ (f : Forward). f.relay_port) fs)
        → All (λ (f : Forward). f.relay_port ≢ p) fs
    All_of_map = elim [ [] ↦ λ h. tt | f ∷ (fs → ih) ↦ λ h. (h.0, ih h.1) ]

not-positive-ne : (p q : ℤ) → IsPort p → is_positive q ≡ false → q ≢ p
not-positive-ne (pos n) (pos m) h e = λ same. ground arith
not-positive-ne (pos n) (negsuc m) h e = λ same. ground arith
not-positive-ne (negsuc n) q h e = absurd h

used_ports_split :
    (list : List Link) (relay_id : Text) (reserved : List ℤ) (p : ℤ)
    → IsPort p
    → All (λ q. q ≢ p) (used_ports list relay_id reserved)
    → All (λ q. q ≢ p) reserved
      × All
          (λ (l : Link). All (λ (f : Forward). f.relay_port ≢ p) l.forwards)
          (served_by list relay_id)
unfolding used_ports
used_ports_split list relay_id reserved p port h =
    let (free, others) =
      All-append_split (λ q. q ≢ p) (select is_positive reserved)
        (link_ports (served_by list relay_id)) h in
    (
      All-of_select (λ q. q ≢ p) is_positive reserved free (λ q. not-positive-ne p q port),
      All-link_ports p (served_by list relay_id) others,
    )

-- The forwards that `AllocateForwards` returns are one for each target in order, each with its
-- transport and a port in range, no port twice, none of them reserved, and none of them in use by a
-- link that the relay already serves.
pub allocate_forwards_usable :
    (draws : List (Option ℕ)) (list : List Link) (relay_id : Text) (reserved : List ℤ)
    (targets : List Text) {fs : List Forward}
    → allocate_forwards draws list relay_id reserved targets ≡ ok fs
    → (map (λ (f : Forward). f.protocol) fs ≡ targets)
      × All IsForward fs
      × AllPairs (λ (f g : Forward). f.relay_port ≢ g.relay_port) fs
      × All (λ (f : Forward). All (λ q. q ≢ f.relay_port) reserved) fs
      × All (λ (l : Link). Disjoint fs l.forwards) (served_by list relay_id)
unfolding allocate_forwards
allocate_forwards_usable draws list relay_id reserved targets {fs} h =
    let a =
      allocate_loop-Allocated draws (used_ports list relay_id reserved) targets {fs = fs}
        (ground arith) in
    let free =
      All-zip IsForward (Unused (used_ports list relay_id reserved))
        (λ (f : Forward).
          All (λ q. q ≢ f.relay_port) reserved
          × All (λ (l : Link). All (λ (g : Forward). g.relay_port ≢ f.relay_port) l.forwards)
              (served_by list relay_id))
        (λ f s u. used_ports_split list relay_id reserved f.relay_port s.1 u) fs a.sound a.unused in
    (
      a.protocols,
      a.sound,
      a.apart,
      All-map _ _ (λ f u. u.0) fs free,
      All-swap
          (λ (f : Forward) (l : Link).
            All (λ (g : Forward). g.relay_port ≢ f.relay_port) l.forwards)
          fs (served_by list relay_id) (All-map _ _ (λ f u. u.1) fs free),
    )
