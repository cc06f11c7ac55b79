-- ===== src/Subgroups/Stored.antt =====
-- The registry of subscription groups on disk: what a group's entry keeps, and the rules over any
-- run of transactions.
use singbox_deploy.Common.{
  codes, [], ◌∷◌, ◌++◌, ◌≡◌, ap, ◌∙◌, All-map, trim_space, to_lower, trim_space_idem, normalize,
  or_empty, trim_space-normalize, trim_space-newline, text_beq, contains,
}
use singbox_deploy.State.Entries.{Disk, read_entry_value}
use singbox_deploy.State.Entries.Order.{written}
use singbox_deploy.State.Entries.Runs.{loaded, Reach, Reach-keeps}
use singbox_deploy.Subgroups.{Group, alias_key, salt_key, decode_group, encode_group, apply}
use singbox_deploy.Subgroups.Rules.{IsGroup, IsGroups, SameKeys, IsGroups-map}
use singbox_deploy.Subgroups.Registry.{apply-IsGroups}

read_id : (g : Group) → read_entry_value (written (encode_group g)) (codes "id") [] ≡ normalize g.id
unfolding read_entry_value encode_group text_beq contains
read_id g =
    or_empty (trim_space (normalize g.id ++ 10 ∷ []))
    ∙ trim_space-newline (normalize g.id)
    ∙ trim_space-normalize g.id

read_alias :
    (g : Group)
    → read_entry_value (written (encode_group g)) (codes "alias") [] ≡ trim_space g.alias
unfolding read_entry_value encode_group text_beq contains
read_alias g =
    or_empty (trim_space (trim_space g.alias ++ 10 ∷ []))
    ∙ trim_space-newline (trim_space g.alias)
    ∙ trim_space_idem g.alias

read_salt :
    (g : Group) → read_entry_value (written (encode_group g)) (codes "salt") [] ≡ trim_space g.salt
unfolding read_entry_value encode_group text_beq contains
read_salt g =
    or_empty (trim_space (trim_space g.salt ++ 10 ∷ []))
    ∙ trim_space-newline (trim_space g.salt)
    ∙ trim_space_idem g.salt

-- A group comes back from its entry with its ID, and with its alias and salt up to spaces.
decode_group-encode_group :
    (g : Group) → IsGroup g → SameKeys (decode_group (written (encode_group g))) g
unfolding decode_group alias_key salt_key
decode_group-encode_group g h = (
  read_id g ∙ h.0.0,
  ap (λ s. to_lower (trim_space s)) (read_alias g) ∙ ap to_lower (trim_space_idem g.alias),
  ap trim_space (read_salt g) ∙ trim_space_idem g.salt,
)

-- From a disk on which no two groups share an ID, an alias or a salt and none of these is missing,
-- any run of the six operations in which the reads of the field files succeed, whatever other call
-- fails, and each of which leaves at most 999 groups, ends in a disk of which the same holds.
pub Reach-IsGroups :
    {d e : Disk}
    → IsGroups (loaded decode_group encode_group apply d)
    → Reach decode_group encode_group apply d e
    → IsGroups (loaded decode_group encode_group apply e)
Reach-IsGroups h r =
    Reach-keeps decode_group encode_group apply IsGroups (record { sound = tt; distinct = tt })
      (λ list reg.
        IsGroups-map (λ g. decode_group (written (encode_group g))) list
          (All-map IsGroup (λ g. SameKeys (decode_group (written (encode_group g))) g)
            decode_group-encode_group list reg.sound)
          reg)
      apply-IsGroups h r
