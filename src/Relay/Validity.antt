-- ===== src/Relay/Validity.antt =====
-- What `Validate` accepts, stated without the code.
use singbox_deploy.Common.{
  Text, codes, text_eq, ◌==◌, text_beq_iff, none, List, [], ◌∷◌, ◌++◌, map, ◌≡◌, ◌≢◌, ◌↔◌, ◌⊎◌,
  refl, inl, inr, arith, find?, not-contains_iff, is_empty_iff, trim_space, All, AllPairs, AllNew,
  AllNew-append, AllNew-of_none, gather, ok, Result-cases, Option-cases, IsPort, IsPort-iff,
}
use singbox_deploy.Relay.{
  Forward, Landing, Config, socket, display_name, check_socket, claim_sockets, check_landing,
  check_landings, validate_config,
}

-- A mapping by itself: a known transport, and both ports in range.
abbrev pub IsMapping : Forward → Type 0
IsMapping f =
    ((f.network ≡ codes "tcp") ⊎ (f.network ≡ codes "udp"))
    × IsPort f.listen_port
    × IsPort f.target_port

-- A landing node by itself: named, reachable, and with a mapping at least.
abbrev pub IsLanding : Landing → Type 0
IsLanding l =
    (trim_space l.node_id ≢ [])
    × (trim_space l.host ≢ [])
    × (l.forwards ≢ [])
    × All IsMapping l.forwards

-- The sockets of all landing nodes, in order.
abbrev pub sockets : List Landing → List Text
sockets [] = []
sockets (l ∷ ls) = map socket l.forwards ++ sockets ls

abbrev pub ids : List Landing → List Text
ids = map (λ (l : Landing). l.node_id)

pub record IsConfig (cfg : Config) : Type 0 where
  pub landings : All IsLanding cfg.landings
  pub distinct : AllPairs (λ a b. a ≢ b) (ids cfg.landings)
  pub apart : AllPairs (λ a b. a ≢ b) (sockets cfg.landings)

abbrev keys : List (Text × Text) → List Text
keys = map (λ (e : Text × Text). e.0)

unowned_iff :
    (key : Text) (claimed : List (Text × Text))
    → (find? (λ (e : Text × Text). e.0 == key) claimed ≡ none) ↔ All (λ k. k ≢ key) (keys claimed)
unfolding find?
unowned_iff key [] = (λ h. tt, λ h. refl)
unowned_iff key (e ∷ es) = ground (arith, text_beq_iff (e.0) key, unowned_iff key es)

check_socket_iff :
    (name : Text) (claimed : List (Text × Text)) (f : Forward)
    → (check_socket name claimed f ≡ none) ↔ (IsMapping f × All (λ k. k ≢ socket f) (keys claimed))
unfolding check_socket
check_socket_iff name claimed f =
    elim (Option-cases (find? (λ (e : Text × Text). e.0 == socket f) claimed)) [
      | inl free ↦ ground (
        arith,
        text_beq_iff f.network (codes "tcp"),
        text_beq_iff f.network (codes "udp"),
        IsPort-iff f.listen_port,
        IsPort-iff f.target_port,
        unowned_iff (socket f) claimed,
      )
      | inr (owner, owned) ↦ ground (arith, unowned_iff (socket f) claimed)
    ]

-- What is claimed after the loop over the forwards.
abbrev claims_after : Text → List (Text × Text) → List Forward → List (Text × Text)
claims_after name claimed [] = claimed
claims_after name claimed (f ∷ fs) = claims_after name ((socket f, name) ∷ claimed) fs

keys-claims_after :
    (name : Text) (claimed : List (Text × Text)) (fs : List Forward)
    → keys (claims_after name claimed fs) ≡ gather (keys claimed) (map socket fs)
keys-claims_after name claimed [] = refl
keys-claims_after name claimed (f ∷ fs) = keys-claims_after name ((socket f, name) ∷ claimed) fs

claim_sockets_iff :
    (name : Text) (claimed : List (Text × Text)) (fs : List Forward) (after : List (Text × Text))
    → (claim_sockets name claimed fs ≡ ok after) ↔ (
        All IsMapping fs
        × AllNew (keys claimed) (map socket fs)
        × (claims_after name claimed fs ≡ after))
unfolding claim_sockets
claim_sockets_iff name claimed [] after = (λ h. (tt, tt, ground arith), λ h. ground arith)
claim_sockets_iff name claimed (f ∷ fs) after = ground (
  arith,
  check_socket_iff name claimed f,
  claim_sockets_iff name ((socket f, name) ∷ claimed) fs after,
)

check_landing_iff :
    (seen : List Text) (l : Landing)
    → (check_landing seen l ≡ none) ↔ (
        (trim_space l.node_id ≢ [])
        × All (λ i. i ≢ l.node_id) seen
        × (trim_space l.host ≢ [])
        × (l.forwards ≢ []))
unfolding check_landing
check_landing_iff seen l = ground (
  arith,
  is_empty_iff (trim_space l.node_id),
  not-contains_iff seen l.node_id,
  is_empty_iff (trim_space l.host),
  is_empty_iff l.forwards,
)

check_landings_iff :
    (claimed : List (Text × Text)) (seen : List Text) (ls : List Landing)
    → (check_landings claimed seen ls ≡ none)
      ↔ (All IsLanding ls × AllNew seen (ids ls) × AllNew (keys claimed) (sockets ls))
unfolding check_landings
check_landings_iff claimed seen [] = (λ h. (tt, tt, tt), λ h. refl)
check_landings_iff claimed seen (l ∷ ls) =
    let after = claims_after (display_name l) claimed l.forwards in
    let own = check_landing_iff seen l in
    let loop = claim_sockets_iff (display_name l) claimed l.forwards in
    let rest = check_landings_iff after (l.node_id ∷ seen) ls in
    let parts = AllNew-append (keys claimed) (map socket l.forwards) (sockets ls) in
    let same = keys-claims_after (display_name l) claimed l.forwards in
    let rest' = rw same at rest in
    elim (Result-cases (claim_sockets (display_name l) claimed l.forwards)) [
      | inl (c, e) ↦
          let h = (loop c).0 e in
          let rest'' = rw h.2 at rest' in ground (arith, own, e, h.0, h.1, rest'', parts)
      | inr (x, e) ↦
          ground (arith, own, e, loop (claims_after (display_name l) claimed l.forwards), parts)
    ]

-- `Validate` accepts a job exactly when every landing node has an ID, a hostname and a mapping, no
-- ID is there twice, every mapping is of tcp or udp with both ports in range, and no two mappings
-- of the whole job listen on the same transport and port.
pub validate_config_iff : (cfg : Config) → (validate_config cfg ≡ none) ↔ IsConfig cfg
unfolding validate_config
validate_config_iff cfg =
    let loop = check_landings_iff [] [] cfg.landings in
    (
      λ h.
          let r = loop.0 h in
          record {
            landings = r.0;
            distinct = (AllNew-of_none (ids cfg.landings)).0 r.1;
            apart = (AllNew-of_none (sockets cfg.landings)).0 r.2;
          },
      λ v. loop.1 (
        v.landings,
        (AllNew-of_none (ids cfg.landings)).1 v.distinct,
        (AllNew-of_none (sockets cfg.landings)).1 v.apart,
      ),
    )
