-- ===== src/Relaylinks/Stored.antt =====
-- The registry on disk: what a transaction stores is what the next load decodes, and the rules hold
-- of what is loaded after any run of transactions that read every field file, whatever else fails.
use singbox_deploy.Common.{
  Text, codes, List, [], ◌∷◌, ◌++◌, map, ◌≡◌, ap, ◌∙◌, arith, map_id_of_All, trim_space, normalize,
  normalize_idem, or_empty, trim_space-normalize, trim_space-newline, trim_space_of_All, is_space,
  All, All-map, All-zip, All-join, Result, ok, text_beq, contains, false,
}
use singbox_deploy.State.Entries.{Disk, read_entry_value}
use singbox_deploy.State.Entries.Order.{written}
use singbox_deploy.State.Entries.Runs.{loaded, Reach, Reach-keeps}
use singbox_deploy.Relaylinks.{Forward, Link, LinkError, set_link, remove_link, drop_node}
use singbox_deploy.Relaylinks.Validity.{IsForward, IsLink}
use singbox_deploy.Relaylinks.Registry.{
  IsRegistry, IsNormal, set_link-IsRegistry, remove_link-IsRegistry, drop_node-IsRegistry,
}
use singbox_deploy.Relaylinks.Codec.{
  decode_link, encode_link, encode_forward, encode_forwards, decode_forwards,
  decode_forwards-encode_forwards, IsInner, IsInner-encode_forward, not-is_space,
}

-- The field files of a stored link, as `ReadEntryValue` returns them.
read_landing_id :
    (l : Link)
    → read_entry_value (written (encode_link l)) (codes "landing_id") [] ≡ normalize l.landing_id
unfolding read_entry_value encode_link text_beq contains
read_landing_id l =
    or_empty (trim_space (normalize l.landing_id ++ 10 ∷ []))
    ∙ trim_space-newline (normalize l.landing_id)
    ∙ trim_space-normalize l.landing_id

read_relay_id :
    (l : Link)
    → read_entry_value (written (encode_link l)) (codes "relay_id") [] ≡ normalize l.relay_id
unfolding read_entry_value encode_link text_beq contains
read_relay_id l =
    or_empty (trim_space (normalize l.relay_id ++ 10 ∷ []))
    ∙ trim_space-newline (normalize l.relay_id)
    ∙ trim_space-normalize l.relay_id

read_forwards :
    (l : Link)
    → read_entry_value (written (encode_link l)) (codes "forwards") []
      ≡ trim_space (encode_forwards l.forwards)
unfolding read_entry_value encode_link text_beq contains
read_forwards l =
    or_empty (trim_space (encode_forwards l.forwards ++ 10 ∷ []))
    ∙ trim_space-newline (encode_forwards l.forwards)

encoded_records :
    (fs : List Forward)
    → All IsForward fs
    → All (All (λ c. is_space c ≡ false)) (map encode_forward fs)
encoded_records [] h = tt
encoded_records (f ∷ fs) h = (
  All-map IsInner (λ c. is_space c ≡ false) (λ c i. not-is_space c (omega arith) i.1)
      (encode_forward f) (IsInner-encode_forward f h.0),
  encoded_records fs h.1,
)

trim_space-encode_forwards :
    (fs : List Forward) → All IsForward fs → trim_space (encode_forwards fs) ≡ encode_forwards fs
unfolding encode_forwards
trim_space-encode_forwards fs h = trim_space_of_All _ (
    All-join (λ c. is_space c ≡ false) b',' (map encode_forward fs)
      (not-is_space b',' (omega arith) (omega arith)) (encoded_records fs h))

-- A sound link with normal IDs comes back from its entry directory as it was.
pub decode_link-encode_link :
    (l : Link) → IsLink l → IsNormal l → decode_link (written (encode_link l)) ≡ l
unfolding decode_link
decode_link-encode_link l s n =
    let landing = ap normalize (read_landing_id l) ∙ normalize_idem l.landing_id ∙ n.0 in
    let relay = ap normalize (read_relay_id l) ∙ normalize_idem l.relay_id ∙ n.1 in
    let fs =
      ap decode_forwards (read_forwards l ∙ trim_space-encode_forwards l.forwards s.forwards)
      ∙ decode_forwards-encode_forwards l.forwards s.forwards in
    λ i. record { landing_id = landing i; relay_id = relay i; forwards = fs i }

IsRegistry-round_trip :
    (list : List Link)
    → IsRegistry list
    → IsRegistry (map (λ l. decode_link (written (encode_link l))) list)
IsRegistry-round_trip list reg =
    let same =
      map_id_of_All (λ l. decode_link (written (encode_link l))) list
        (All-zip IsLink IsNormal _ decode_link-encode_link list reg.sound reg.normal) in
    rw same reg

-- The three operations that write the registry.
pub data Op : Type 0 where
  set : Link → Op
  remove : Text → Op
  drop : Text → Op

unfoldable pub apply : Op → List Link → Result LinkError (List Link)
apply (set link) list = set_link link list
apply (remove landing_id) list = remove_link landing_id list
apply (drop node_id) list = ok (drop_node node_id list).1

apply-IsRegistry :
    (op : Op) (list next : List Link) → apply op list ≡ ok next → IsRegistry list → IsRegistry next
unfolding apply
apply-IsRegistry (set link) list next h reg = set_link-IsRegistry link list h reg
apply-IsRegistry (remove landing_id) list next h reg = remove_link-IsRegistry landing_id list h reg
apply-IsRegistry (drop node_id) list next h reg =
    let stored : (drop_node node_id list).1 ≡ next = ground arith in
    rw (← stored) (drop_node-IsRegistry node_id list reg)

-- From a disk whose registry keeps the rules, any run of `Set`, `Remove` and `DropNode` in which the
-- reads of the field files succeed, whatever other call fails, and each of which leaves at most 999
-- links, ends in a disk whose registry keeps the rules.
pub Reach-IsRegistry :
    {d e : Disk}
    → IsRegistry (loaded decode_link encode_link apply d)
    → Reach decode_link encode_link apply d e
    → IsRegistry (loaded decode_link encode_link apply e)
Reach-IsRegistry h r =
    Reach-keeps decode_link encode_link apply IsRegistry
      (record { sound = tt; normal = tt; compatible = tt }) IsRegistry-round_trip apply-IsRegistry h
      r
