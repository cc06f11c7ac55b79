-- ===== src/Relaylinks.antt =====
-- internal/relaylinks/relaylinks.go: the registry of relay links, as the functions that each
-- transaction runs on the decoded list, and the queries. `Relaylinks.Codec` has the encoding, and
-- `Relaylinks.Ports` the generation of relay ports.
pub mod Codec
pub mod Ports
pub mod Validity
pub mod Validate
pub mod Registry
pub mod Stored
pub mod Queries
pub mod Hops
mod Tests
use singbox_deploy.Common.{
  ℕ, zero, suc, Text, codes, text_eq, ◌==◌, Bool, true, false, not, ◌&&◌, ◌||◌, Option, none, some,
  List, [], ◌∷◌, ◌++◌, set, remove_at, select, index_from, at_index, contains, normalize, is_empty,
  if◌then◌else◌, Result, ok, err, reject, ℤ, int_eq, out_of_port_range, check_others, is_skip,
}

-- internal/config/protocols.go
abbrev pub reality_vision : Text
reality_vision = codes "vless-reality-vision"

abbrev pub reality_grpc : Text
reality_grpc = codes "vless-reality-grpc"

abbrev pub hysteria2 : Text
hysteria2 = codes "hysteria2"

abbrev pub tuic : Text
tuic = codes "tuic"

abbrev pub anytls : Text
anytls = codes "anytls"

pub record Forward : Type 0 where
  pub protocol : Text
  pub network : Text
  pub relay_port : ℤ

pub record Link : Type 0 where
  pub landing_id : Text
  pub relay_id : Text
  pub forwards : List Forward

-- `NetworkFor`; none where the protocol is not supported.
unfoldable pub network_for : Text → Option Text
network_for protocol =
    if protocol == reality_vision || protocol == reality_grpc || protocol == anytls
    then some (codes "tcp")
    else if protocol == hysteria2 || protocol == tuic
    then some (codes "udp")
    else none

pub data LinkError : Type 0 where
  no_landing no_relay self_relay no_forward : LinkError
  unsupported wrong_network repeated_protocol port_range repeated_port : Forward → LinkError
  already_relayed landing_is_relay relay_is_landing : Link → LinkError
  port_clash : Forward → Link → LinkError

unfoldable pub normalized : Link → Link
normalized l = record l { landing_id = normalize l.landing_id; relay_id = normalize l.relay_id }

unfoldable pub index_of : List Link → Text → Option ℕ
index_of list landing_id =
    if is_empty landing_id
    then none
    else index_from (λ (l : Link). l.landing_id == landing_id) 0 list

-- One round of the loop over the forwards of a link, which fails or goes on.
unfoldable pub check_forward : List ℤ → List Text → Forward → Option LinkError
check_forward claimed seen f = elim (network_for f.protocol) [
  | none ↦ some (unsupported f)
  | some network ↦
      if not (f.network == network)
      then some (wrong_network f)
      else if contains seen f.protocol
      then some (repeated_protocol f)
      else if out_of_port_range f.relay_port
      then some (port_range f)
      else if contains claimed f.relay_port
      then some (repeated_port f)
      else none
]

-- The loop; on success the ports that the link claims.
unfoldable pub check_forwards : List ℤ → List Text → List Forward → Result LinkError (List ℤ)
check_forwards claimed seen [] = ok claimed
check_forwards claimed seen (f ∷ fs) =
    let rest = check_forwards (f.relay_port ∷ claimed) (f.protocol ∷ seen) fs in
    reject (check_forward claimed seen f) rest

unfoldable pub first_clash : List ℤ → List Forward → Option Forward
first_clash claimed [] = none
first_clash claimed (f ∷ fs) =
    let rest = first_clash claimed fs in if contains claimed f.relay_port then some f else rest

-- One round of the loop over the other links.
unfoldable pub conflict : Link → List ℤ → Link → Option LinkError
conflict link claimed existing =
    if existing.landing_id == link.landing_id
    then some (already_relayed link)
    else if existing.relay_id == link.landing_id
    then some (landing_is_relay link)
    else if existing.landing_id == link.relay_id
    then some (relay_is_landing link)
    else if not (existing.relay_id == link.relay_id)
    then none
    else elim (first_clash claimed existing.forwards) [
      | none ↦ none
      | some f ↦ some (port_clash f existing)
    ]

-- `validate`; `skip` is none for -1.
unfoldable pub validate : List Link → Link → Option ℕ → Option LinkError
validate list link skip =
    if is_empty link.landing_id
    then some no_landing
    else if is_empty link.relay_id
    then some no_relay
    else if link.landing_id == link.relay_id
    then some self_relay
    else if is_empty link.forwards
    then some no_forward
    else elim (check_forwards [] [] link.forwards) [
      | err e ↦ some e
      | ok claimed ↦ check_others (conflict link claimed) skip 0 list
    ]

-- The mutation of `Set`.
unfoldable pub set_link : Link → List Link → Result LinkError (List Link)
set_link given list =
    let link = normalized given in
    let at = index_of list link.landing_id in
    reject (validate list link at)
      (ok (elim at [ none ↦ list ++ link ∷ [] | some i ↦ set list i link ]))

-- The mutation of `Remove`.
unfoldable pub remove_link : Text → List Link → Result LinkError (List Link)
remove_link landing_id list = elim (index_of list (normalize landing_id)) [
  | none ↦ ok list
  | some i ↦ ok (remove_at list i)
]

-- The relay of a link that `DropNode` deletes is reported if it is new and not the node itself.
unfoldable pub is_orphan : Text → List Text → Link → Bool
is_orphan node seen l =
    l.landing_id == node && not (contains seen l.relay_id) && not (l.relay_id == node)

unfoldable pub seen_after : Text → List Text → Link → List Text
seen_after node seen l = if is_orphan node seen l then l.relay_id ∷ seen else seen

-- The loop of `DropNode`: the relays to withdraw rules from, and the links that stay.
unfoldable pub drop_loop : Text → List Text → List Link → List Text × List Link
drop_loop node seen [] = ([], [])
drop_loop node seen (l ∷ ls) =
    let rest = drop_loop node (seen_after node seen l) ls in
    if l.landing_id == node
    then (if is_orphan node seen l then (l.relay_id ∷ rest.0, rest.1) else rest)
    else if l.relay_id == node
    then rest
    else (rest.0, l ∷ rest.1)

-- `DropNode`: nothing is done for an empty ID.
unfoldable pub drop_node : Text → List Link → List Text × List Link
drop_node node_id list =
    if is_empty (normalize node_id) then ([], list) else drop_loop (normalize node_id) [] list

unfoldable pub find_link : List Link → Text → Option Link
find_link list landing_id = at_index list (index_of list (normalize landing_id))

unfoldable pub served_by : List Link → Text → List Link
served_by list relay_id =
    if is_empty (normalize relay_id)
    then []
    else select (λ (l : Link). l.relay_id == normalize relay_id) list

abbrev is_some {ℓ} : {A : Type ℓ} → Option A → Bool
is_some none = false
is_some (some a) = true

unfoldable pub is_landing : List Link → Text → Bool
is_landing list node_id = is_some (index_of list (normalize node_id))

unfoldable pub is_relay : List Link → Text → Bool
is_relay list node_id = not (is_empty (served_by list node_id))
