-- ===== src/Subgroups/Tests.antt =====
-- A registry of two groups, and the operations on it.
use singbox_deploy.Common.{
  ◌⊎◌, All, ◌≤◌, length, ℕ, codes, text_eq, text_beq, ◌==◌, none, some, Option, List, [], ◌∷◌, map,
  ◌≡◌, ◌≢◌, ◌↔◌, refl, arith, true, false, not, ◌&&◌, ◌||◌, ok, err, AllBut, contains, normalize,
  trim_space, trim_left, trim_right, to_lower, lower_rune, is_space, is_empty, index_from,
}
use singbox_deploy.State.Entries.{
  Disk, Faults, LoadError, load_failed, stored_entries, load_entry_dirs, transact,
}
use singbox_deploy.State.Entries.Runs.{loaded, Reach, Step, begin}
use singbox_deploy.Subgroups.{
  normalize_group_ids, ensure_seeded, generate_id, hex_of, Group, Op, remove, seed, alias_key,
  salt_key, index_of, validate_unique, remove_group, drop_from, drop_member, add_to, wanted_ids,
  add_member, has_member, last_group, mutate, decode_group, encode_group, apply,
}
use singbox_deploy.Subgroups.Rules.{IsGroups, Distinct, validate_unique_iff}
use singbox_deploy.Subgroups.Forms.{
  alias_conflict, salt_conflict, forms_agree, load_groups, load_groups_quiet,
}
use singbox_deploy.Subgroups.Stored.{Reach-IsGroups}
use singbox_deploy.Subgroups.Members.{drop_member_members, add_member_members, mutate_keeps_some}

abbrev home : Group
home = record {
  id = codes "a1";
  alias = codes "Home";
  salt = codes "salt-1";
  members = codes "hub" ∷ codes "n1" ∷ [];
}

abbrev work : Group
work = record {
  id = codes "b2";
  alias = codes "Work";
  salt = codes "salt-2";
  members = codes "n1" ∷ [];
}

abbrev both : List Group
both = home ∷ work ∷ []

drop_n1 : drop_member (codes " N1 ") both ≡ ok (map (drop_from (normalize (codes " N1 "))) both)
unfolding drop_member normalize to_lower trim_space trim_left trim_right lower_rune is_space
drop_n1 = refl

add_n2 :
    add_member (codes "n2") (codes "B2" ∷ []) both
    ≡ ok (map (add_to (normalize (codes "n2")) (wanted_ids (codes "B2" ∷ []))) both)
unfolding add_member normalize to_lower trim_space trim_left trim_right lower_rune is_space
add_n2 = refl

n2_id : normalize (codes "n2") ≢ []
unfolding normalize to_lower trim_space trim_left trim_right lower_rune is_space
n2_id h = absurd (ground arith)

work_id : work.id ≢ []
work_id h = absurd (ground arith)

remove_home : mutate (remove (codes "A1")) both ≡ ok (work ∷ [])
unfolding mutate remove_group index_of index_from text_beq normalize to_lower trim_space trim_left
    trim_right lower_rune is_space
remove_home = refl

remove_last : mutate (remove (codes "b2")) (work ∷ []) ≡ err last_group
unfolding mutate remove_group index_of index_from text_beq normalize to_lower trim_space trim_left
    trim_right lower_rune is_space
remove_last = refl

drop_member_members_example :
    map (λ g. has_member g (codes "hub")) (map (drop_from (normalize (codes " N1 "))) both)
    ≡ map
        (λ g.
          has_member g (codes "hub") && not (normalize (codes "hub") == normalize (codes " N1 ")))
        both
drop_member_members_example =
    drop_member_members (codes " N1 ") (codes "hub") both
      (map (drop_from (normalize (codes " N1 "))) both) drop_n1

add_member_members_example :
    map
      (λ g. has_member g (codes "N2"))
      (map (add_to (normalize (codes "n2")) (wanted_ids (codes "B2" ∷ []))) both)
    ≡ map
        (λ (g : Group).
          has_member g (codes "N2")
          || (contains (wanted_ids (codes "B2" ∷ [])) g.id
              && (normalize (codes "N2") == normalize (codes "n2"))))
        both
add_member_members_example =
    add_member_members (codes "n2") (codes "N2") (codes "B2" ∷ []) both
      (map (add_to (normalize (codes "n2")) (wanted_ids (codes "B2" ∷ []))) both) n2_id add_n2

mutate_keeps_some_example : is_empty (work ∷ []) ≡ false
mutate_keeps_some_example =
    mutate_keeps_some (remove (codes "A1")) both (work ∷ []) refl remove_home

validate_unique_iff_example : (validate_unique both work (some 1) ≡ none) ↔ (
    ((alias_key work ≢ []) × (salt_key work ≢ []))
    × ((work.members ≢ []) × AllBut (λ e. Distinct e work) (some 1) 0 both))
validate_unique_iff_example = validate_unique_iff both work (some 1) work_id

abbrev fresh_disk : Disk
fresh_disk = record { dir = none; staging = none; backup = none }

abbrev no_fault : Faults
no_fault = record {
  lock = true;
  list = true;
  reads = λ entry field. true;
  stage = true;
  inspect = true;
  move_aside = true;
  commit = true;
  restore = true;
  remove_backup = true;
  cleanup = true;
}

-- What upgrades an installation without groups; the random bytes count up.
abbrev seeding : (ℕ → Option (ℕ → ℕ)) × Op
seeding = (λ i. none, seed (some (λ i. i)) (codes " old-salt ") (codes "hub" ∷ []))

seeded_fits :
    (next : List Group)
    → apply seeding (loaded decode_group encode_group apply fresh_disk) ≡ ok next
    → length next ≤ 999
unfolding apply normalize_group_ids mutate ensure_seeded generate_id stored_entries trim_space
    trim_left trim_right is_space
seeded_fits next h =
    let one : record {
      id = hex_of (λ i. i) 16;
      alias = codes "Default";
      salt = codes "old-salt";
      members = codes "hub" ∷ [];
    }
          ∷ []
        ≡ next =
      ground arith in
    rw (← one) (omega arith)

fresh-IsGroups : IsGroups (loaded decode_group encode_group apply fresh_disk)
unfolding stored_entries
fresh-IsGroups = record { sound = tt; distinct = tt }

Reach-IsGroups_example : IsGroups (
    loaded decode_group encode_group apply
      (transact decode_group encode_group no_fault (apply seeding) (begin fresh_disk)).1)
Reach-IsGroups_example =
    Reach-IsGroups {d = fresh_disk} fresh-IsGroups (
      Reach.next Reach.here
        (Step.run no_fault seeding fresh_disk (λ entry field. refl) seeded_fits))

abbrev play : Group
play = record {
  id = codes "c3";
  alias = codes "Play";
  salt = codes "salt-2";
  members = codes "hub" ∷ [];
}

play_id : play.id ≢ []
play_id h = absurd (ground arith)

play_alias : alias_key play ≢ []
unfolding alias_key to_lower trim_space trim_left trim_right lower_rune is_space
play_alias h = absurd (ground arith)

play_salt : salt_key play ≢ []
unfolding salt_key trim_space trim_left trim_right is_space
play_salt h = absurd (ground arith)

play_members : play.members ≢ []
play_members h = absurd (ground arith)

play_fresh : All (λ (e : Group). e.id ≢ play.id) both
play_fresh = (λ h. absurd (ground arith), (λ h. absurd (ground arith), tt))

-- It has the salt of the second group.
forms_agree_example :
    (validate_unique both play none ≡ none)
    ↔ ((alias_conflict both play.alias [] ≡ none) × (salt_conflict both play.salt [] ≡ none))
forms_agree_example = forms_agree both play play_id play_alias play_salt play_members play_fresh

load_groups_quiet_example :
    ((e : LoadError) × (load_entry_dirs no_fault fresh_disk ≡ err e)
      × (load_groups no_fault no_fault (λ i. none) (λ i. none) fresh_disk
          ≡ (err (load_failed e), fresh_disk)))
    ⊎ ((load_entry_dirs no_fault fresh_disk ≡ ok (stored_entries fresh_disk))
        × (load_groups no_fault no_fault (λ i. none) (λ i. none) fresh_disk
            ≡ (ok (map decode_group (stored_entries fresh_disk)), fresh_disk)))
load_groups_quiet_example =
    load_groups_quiet no_fault no_fault (λ i. none) (λ i. none) fresh_disk (λ entry field. refl)
      fresh-IsGroups
