-- ===== src/State/Entries/Order.antt =====
-- The order of a registry over a save and a load: the names of the entry directories sort as their
-- numbers do, as long as they have three digits.
use singbox_deploy.Common.{
  ℕ, suc, ◌+◌, ◌/◌, ◌%◌, ◌≤◌, ◌<◌, ◌≡◌, refl, ap, ◌∙◌, Text, List, [], ◌∷◌, ◌++◌, map, length, none,
  some, false, Bool-cases, inl, inr, arith, ltb, format_nat_small, format_nat_large, Option-cases,
  codes, length-map,
}
use singbox_deploy.State.Entries.{
  Fields, Tree, Disk, Faults, stage_fields, stage_entries, entry_name, text_lt, insert_entry,
  sort_entries, stored_entries, save_entry_dirs, commit_tree,
}

entry_name_digits :
    (i : ℕ)
    → i < 1000
    → entry_name i ≡ (b'0' + i / 100) ∷ (b'0' + i / 10 % 10) ∷ (b'0' + i % 10) ∷ []
unfolding entry_name
entry_name_digits i h = elim (Bool-cases (ltb i 10)) [
  | inl one ↦ rw (format_nat_small i (ground arith)) (ground arith)
  | inr more ↦ elim (Bool-cases (ltb i 100)) [
    | inl two ↦
        rw (format_nat_large i (ground arith), format_nat_small (i / 10) (ground arith))
          (ground arith)
    | inr three ↦
        rw
          (
            format_nat_large i (ground arith),
            format_nat_large (i / 10) (ground arith),
            format_nat_small (i / 10 / 10) (ground arith),
          )
          (ground arith)
  ]
]

not-text_lt-entry_name :
    (i : ℕ) → suc i < 1000 → text_lt (entry_name (suc i)) (entry_name i) ≡ false
unfolding text_lt
not-text_lt-entry_name i h =
    rw (entry_name_digits (suc i) h, entry_name_digits i (omega arith)) (ground arith)

number : ℕ → List Fields → Tree
number i [] = []
number i (f ∷ fs) = (entry_name i, f) ∷ number (suc i) fs

sort_entries-number :
    (i : ℕ) (fs : List Fields) → i + length fs ≤ 1000 → sort_entries (number i fs) ≡ number i fs
unfolding sort_entries insert_entry number
sort_entries-number i [] h = refl
sort_entries-number i (f ∷ []) h = refl
sort_entries-number i (f ∷ g ∷ fs) h =
    rw (sort_entries-number (suc i) (g ∷ fs) (omega arith))
      (rw (not-text_lt-entry_name i (omega arith)) refl)

contents-number : (i : ℕ) (fs : List Fields) → map (λ (e : Text × Fields). e.1) (number i fs) ≡ fs
unfolding number
contents-number i [] = refl
contents-number i (f ∷ fs) = ap (◌∷◌ f) (contents-number (suc i) fs)

-- The files of a field that was written: each value ends in a newline.
abbrev pub written : Fields → Fields
written = map (λ (f : Text × Text). (f.0, f.1 ++ codes "\n"))

stage_fields-written : (f : Fields) {g : Fields} → stage_fields f ≡ some g → g ≡ written f
unfolding stage_fields
stage_fields-written [] h = ground arith
stage_fields-written ((n, v) ∷ f) h = elim (Option-cases (stage_fields f)) [
  | inl bad ↦ ground arith
  | inr (g', e) ↦ ground (arith, stage_fields-written f e)
]

stage_entries-number :
    (i : ℕ) (items : List Fields) {t : Tree}
    → stage_entries i items ≡ some t
    → t ≡ number i (map written items)
unfolding stage_entries number
stage_entries-number i [] h = ground arith
stage_entries-number i (f ∷ fs) h = elim (Option-cases (stage_fields f)) [
  | inl bad ↦ absurd (ground arith)
  | inr (g, e) ↦ elim (Option-cases (stage_entries (suc i) fs)) [
    | inl bad ↦ absurd (ground arith)
    | inr (rest, e') ↦ ground (arith, stage_fields-written f e, stage_entries-number (suc i) fs e')
  ]
]

dir-commit_tree :
    (faults : Faults) (d : Disk)
    → (commit_tree faults d).0 ≡ none
    → (commit_tree faults d).1.dir ≡ d.staging
unfolding commit_tree
dir-commit_tree faults d h = ground arith

dir-save_entry_dirs :
    (faults : Faults) (items : List Fields) (d : Disk)
    → (save_entry_dirs faults items d).0 ≡ none
    → (t : Tree) × (stage_entries 1 items ≡ some t)
      × ((save_entry_dirs faults items d).1.dir ≡ some t)
unfolding save_entry_dirs
dir-save_entry_dirs faults items d h = elim (Option-cases (stage_entries 1 items)) [
  | inl bad ↦ absurd (ground arith)
  | inr (t, e) ↦ (t, e, ground (arith, dir-commit_tree faults (record d { staging = some t })))
]

load_of_number :
    (d : Disk) (fs : List Fields)
    → length fs ≤ 999
    → d.dir ≡ some (number 1 fs)
    → stored_entries d ≡ fs
unfolding stored_entries
load_of_number d fs few e =
    rw (e, stored_entries)
      (ap (map (λ (x : Text × Fields). x.1)) (sort_entries-number 1 fs (omega arith))
        ∙ contents-number 1 fs)

-- A staged tree of at most 999 entries is loaded in the order in which it was staged.
pub load_of_staged :
    (d : Disk) (items : List Fields) {t : Tree}
    → d.dir ≡ some t
    → stage_entries 1 items ≡ some t
    → length items ≤ 999
    → stored_entries d ≡ map written items
load_of_staged d items at_dir staged few =
    load_of_number d (map written items) (omega (arith, length-map items written))
      (at_dir ∙ ap some (stage_entries-number 1 items staged))

-- After a save of at most 999 entries that reports no error, a load finds every entry in the order
-- in which it was saved, each field's file holding its value and a newline.
pub load-save_entry_dirs :
    (faults : Faults) (items : List Fields) (d : Disk)
    → length items ≤ 999
    → (save_entry_dirs faults items d).0 ≡ none
    → stored_entries (save_entry_dirs faults items d).1 ≡ map written items
load-save_entry_dirs faults items d few h =
    let (t, e, at_dir) = dir-save_entry_dirs faults items d h in
    load_of_staged (save_entry_dirs faults items d).1 items at_dir e few

pub stored_entries-dir : (d d' : Disk) → d.dir ≡ d'.dir → stored_entries d ≡ stored_entries d'
unfolding stored_entries
stored_entries-dir d d' e = rw (e, stored_entries) refl
