-- ===== src/Nodes.antt =====
-- internal/nodes/nodes.go: the registry of spoke nodes, as the functions that each transaction runs
-- on the decoded list. What the packages net, time and crypto compute, and what `rand.Read` fills
-- in, are arguments.
pub mod Operations
pub mod Codec
pub mod Values
pub mod RoundTrip
pub mod Rules
pub mod Reorder
pub mod Registry
pub mod Stored
pub mod Status
mod Tests
use singbox_deploy.Common.{
  ℕ, zero, suc, Text, codes, text_eq, ◌==◌, Bool, true, false, not, ◌&&◌, ◌||◌, Option, none, some,
  List, [], ◌∷◌, ◌++◌, map, ◌≡◌, ◌≢◌, set, remove_at, select, index_from, at_index, contains,
  normalize, trim_space, to_lower, equal_fold, is_empty, if◌then◌else◌, Result, ok, err, reject, ℤ,
  check_others, itoa, join, pos, nat_eq,
}
use singbox_deploy.Subgroups.{generate_id}

pub record Node : Type 0 where
  pub id : Text
  pub alias : Text
  pub subscription_alias : Text
  pub ssh_host : Text
  pub ssh_port : ℤ
  pub ssh_user : Text
  pub wg_public_key : Text
  pub wg_ip : Text
  pub token : Text
  pub agent_port : ℤ
  pub arch : Text
  pub installed : Bool
  pub agent_version : Text
  pub sing_box_version : Text
  pub last_seen : Option ℕ
  pub include_in_subscription : Bool
  pub pending_certificate : Bool
  pub domain : Text
  pub reality_server_name : Text
  pub reality_handshake_port : ℤ
  pub enabled_protocols : List Text
  pub reality_vision_port : ℤ
  pub reality_grpc_port : ℤ
  pub hysteria2_port : ℤ
  pub tuic_port : ℤ
  pub anytls_port : ℤ
  pub protocol_settings_generation : ℕ
  pub monitor : Bool
  pub monitor_alias : Text
  pub monitor_interface : Text
  pub monitor_port : ℤ
  pub monitor_interval_seconds : ℤ
  pub traffic_in_limit_bytes : ℕ
  pub traffic_out_limit_bytes : ℕ
  pub traffic_total_limit_bytes : ℕ
  pub reset_day : ℤ
  pub reset_hour : ℤ
  pub subscription_settings_generation : ℕ

-- The format RFC3339Nano of times, which are counted in nanoseconds.
pub record Clock : Type 0 where
  pub format : ℕ → Text
  pub parse : Text → Option ℕ

-- A time comes back from its text, which is not empty and has no outer spaces.
pub record IsClock (c : Clock) : Type 0 where
  pub back : (t : ℕ) → c.parse (c.format t) ≡ some t
  pub trimmed : (t : ℕ) → trim_space (c.format t) ≡ c.format t
  pub nothing : c.parse [] ≡ none

-- `net.ParseIP` as its canonical form, and the first half of a SHA-256 sum in hex.
pub record Platform : Type 0 where
  pub clock : Clock
  pub parse_ip : Text → Option Text
  pub digest : Text → Text

pub data NodeError : Type 0 where
  no_id no_random not_found changed_id duplicate_id repeated_id refused : NodeError
  id_taken alias_taken subscription_alias_taken host_taken domain_taken address_taken key_taken :
      NodeError

-- The first text that is more than spaces, without its outer spaces.
abbrev or_else : Text → Text → Text
or_else [] t = t
or_else (c ∷ s) t = c ∷ s

unfoldable pub effective_alias : Node → Text
effective_alias n =
    or_else (trim_space n.alias) (or_else (trim_space n.domain) (trim_space n.ssh_host))

unfoldable pub effective_subscription_alias : Node → Text
unfolding effective_alias
effective_subscription_alias n = or_else (trim_space n.subscription_alias) (effective_alias n)

unfoldable pub alias_key : Node → Text
alias_key n = to_lower (trim_space (effective_alias n))

unfoldable pub subscription_alias_key : Node → Text
subscription_alias_key n = to_lower (trim_space (effective_subscription_alias n))

-- `strings.TrimSuffix(s, ".")`
unfoldable pub trim_dot : Text → Text
trim_dot [] = []
trim_dot (c ∷ s) = if is_empty s && c == b'.' then [] else c ∷ trim_dot s

abbrev is_bracket : ℕ → Bool
is_bracket c = c == b'[' || c == b']'

trim_start : Text → Text
trim_start [] = []
trim_start (c ∷ s) = let rest = trim_start s in if is_bracket c then rest else c ∷ s

trim_end : Text → Text
trim_end [] = []
trim_end (c ∷ s) = let rest = trim_end s in if is_bracket c && is_empty rest then [] else c ∷ rest

-- `strings.Trim(s, "[]")`
unfoldable pub trim_brackets : Text → Text
unfolding trim_start trim_end
trim_brackets s = trim_end (trim_start s)

abbrev pub host_key : Text → Text
host_key s = trim_dot (trim_space s)

abbrev pub same_ip : Option Text → Option Text → Bool → Bool
same_ip (some a) (some b) other = a == b
same_ip (some a) none other = other
same_ip none b other = other

unfoldable pub same_name : Platform → Text → Text → Bool
same_name os a b =
    same_ip (os.parse_ip (trim_brackets (host_key a))) (os.parse_ip (trim_brackets (host_key b))) (
      not (is_empty (host_key a))
      && not (is_empty (host_key b))
      && equal_fold (host_key a) (host_key b))

unfoldable pub same_domain : Text → Text → Bool
same_domain a b =
    not (is_empty (host_key a))
    && not (is_empty (host_key b))
    && equal_fold (host_key a) (host_key b)

-- One round of the loop over the other nodes; whether the aliases are compared is decided before it.
unfoldable pub conflict : Platform → Bool → Bool → Node → Node → Option NodeError
unfolding same_name same_domain
conflict os check_alias check_subscription_alias candidate existing =
    if not (is_empty candidate.id) && equal_fold (trim_space candidate.id) (trim_space existing.id)
    then some id_taken
    else if check_alias
        && not (is_empty (alias_key candidate))
        && alias_key candidate == alias_key existing
    then some alias_taken
    else if check_subscription_alias
        && not (is_empty (subscription_alias_key candidate))
        && subscription_alias_key candidate == subscription_alias_key existing
    then some subscription_alias_taken
    else if same_name os candidate.ssh_host existing.ssh_host
    then some host_taken
    else if same_domain candidate.domain existing.domain
    then some domain_taken
    else if not (is_empty candidate.wg_ip) && candidate.wg_ip == existing.wg_ip
    then some address_taken
    else if not (is_empty candidate.wg_public_key)
        && candidate.wg_public_key == existing.wg_public_key
    then some key_taken
    else none

-- `skip < 0 || skip >= len(list) || key(list[skip]) != key(candidate)`
unfoldable pub is_changed : (Node → Text) → Option Node → Node → Bool
is_changed key none candidate = true
is_changed key (some old) candidate = not (key old == key candidate)

-- `validateUnique`; `skip` is none for -1.
unfoldable pub validate_unique : Platform → List Node → Node → Option ℕ → Option NodeError
validate_unique os list candidate skip =
    check_others
      (conflict os (is_changed alias_key (at_index list skip) candidate)
        (is_changed subscription_alias_key (at_index list skip) candidate) candidate)
      skip 0 list
