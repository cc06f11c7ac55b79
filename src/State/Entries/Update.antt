-- ===== src/State/Entries/Update.antt =====
-- internal/state/entries.go: `UpdateEntryFields`, which writes the changed fields of one entry in
-- place, and what it leaves alone whichever writes fail. The reads of the fields and the locks
-- succeed here.
use singbox_deploy.Common.{
  Text, text_eq, ◌==◌, text_beq_iff, Bool, true, false, not, Option, none, some, [], ◌∷◌, ◌++◌, map,
  ◌≡◌, ◌≢◌, refl, ap, ◌∙◌, inl, inr, arith, All, Bool-cases, Result-cases, if◌then◌else◌, Result,
  ok, err,
}
use singbox_deploy.State.Entries.{Fields, Tree, read_file, valid_entry_field_name}

pub data UpdateError (E : Type 0) : Type 0 where
  refused : E → UpdateError E
  invalid_name write_failed no_entry : UpdateError E

-- `WriteFileAtomic` of one field file
unfoldable pub write_field : Text → Text → Fields → Fields
write_field name value [] = (name, value ++ 10 ∷ []) ∷ []
write_field name value ((n, v) ∷ fields) =
    if n == name then (name, value ++ 10 ∷ []) ∷ fields else (n, v) ∷ write_field name value fields

-- Whether the encoded value is there already.
unfoldable pub is_kept : Fields → Text → Text → Bool
is_kept before name value = elim (read_file name before) [
  | none ↦ false
  | some previous ↦ previous == value
]

-- The loop over the encoded fields; `writes` says whether the write of a field succeeds.
unfoldable pub write_changed :
    {E : Type 0} → (Text → Bool) → Fields → Fields → Fields → Option (UpdateError E) × Fields
unfolding write_field is_kept valid_entry_field_name
write_changed writes before [] root = (none, root)
write_changed writes before ((name, value) ∷ after) root =
    let skipped = write_changed writes before after root in
    let written = write_changed writes before after (write_field name value root) in
    if not (valid_entry_field_name name)
    then (some invalid_name, root)
    else if is_kept before name value
    then skipped
    else if writes name
    then written
    else (some write_failed, root)

abbrev answer : {E T : Type 0} → T → Option (UpdateError E) → Result (UpdateError E) T
answer next none = ok next
answer next (some e) = err e

module _ {T E : Type 0} (decode : Fields → T) (encode : T → Fields) where
  -- The entry that is selected; `shuffle` is the order in which Go ranges over the encoded map.
  unfoldable pub update_entry :
      (Fields → Fields)
      → (Text → Bool)
      → (T → Result E T)
      → Fields
      → Result (UpdateError E) T × Fields
  unfolding write_changed
  update_entry shuffle writes mutate root = elim (mutate (decode root)) [
    | err e ↦ (err (refused e), root)
    | ok next ↦
        let done = write_changed writes (encode (decode root)) (shuffle (encode next)) root in
        (answer next done.0, done.1)
  ]

  -- `UpdateEntryFields` on the entries in the order of their names
  unfoldable pub update_entry_fields :
      (Fields → Fields)
      → (Text → Bool)
      → (T → Bool)
      → (T → Result E T)
      → Tree
      → Result (UpdateError E) T × Tree
  unfolding update_entry
  update_entry_fields shuffle writes selects mutate [] = (err no_entry, [])
  update_entry_fields shuffle writes selects mutate ((name, root) ∷ entries) =
      let rest = update_entry_fields shuffle writes selects mutate entries in
      let here = update_entry shuffle writes mutate root in
      if selects (decode root)
      then (here.0, (name, here.1) ∷ entries)
      else (rest.0, (name, root) ∷ rest.1)

read_file-write_field_other :
    (name value other : Text) (root : Fields)
    → name ≢ other
    → read_file other (write_field name value root) ≡ read_file other root
unfolding read_file write_field
read_file-write_field_other name value other [] h = ground (arith, text_beq_iff name other)
read_file-write_field_other name value other ((n, v) ∷ fields) h = ground (
  arith,
  text_beq_iff n name,
  text_beq_iff n other,
  text_beq_iff name other,
  read_file-write_field_other name value other fields h,
)

-- A field that the loop keeps, under every name by which it is encoded, is not touched.
abbrev pub Keeps : Fields → Text → Text × Text → Type 0
Keeps before other field = (field.0 ≡ other) → is_kept before field.0 field.1 ≡ true

pub read_file-write_changed :
    (E : Type 0) (writes : Text → Bool) (before after root : Fields) (other : Text)
    → All (Keeps before other) after
    → read_file other (write_changed {E = E} writes before after root).1 ≡ read_file other root
unfolding write_changed
read_file-write_changed E writes before [] root other h = refl
read_file-write_changed E writes before ((name, value) ∷ after) root other h =
    elim (Bool-cases (valid_entry_field_name name)) [
      | inr bad ↦ rw bad refl
      | inl good ↦ elim (Bool-cases (is_kept before name value)) [
        | inl kept ↦ rw (good, kept) (read_file-write_changed E writes before after root other h.1)
        | inr changed ↦ elim (Bool-cases (writes name)) [
          | inr failed ↦ rw (good, changed, failed) refl
          | inl wrote ↦
              rw (good, changed, wrote)
                (read_file-write_changed E writes before after (write_field name value root) other
                    h.1
                  ∙ read_file-write_field_other name value other root
                      (λ same. ground (arith, h.0 same)))
        ]
      ]
    ]

module _ {T E : Type 0} (decode : Fields → T) (encode : T → Fields) (shuffle : Fields → Fields)
    (writes : Text → Bool) (selects : T → Bool) (mutate : T → Result E T) where
  update_entry-read_file :
      (other : Text)
      → ((t next : T) → mutate t ≡ ok next → All (Keeps (encode t) other) (shuffle (encode next)))
      → (root : Fields)
      → read_file other (update_entry decode encode shuffle writes mutate root).1
        ≡ read_file other root
  unfolding update_entry
  update_entry-read_file other kept root = elim (Result-cases (mutate (decode root))) [
    | inr (e, refusal) ↦ rw (refusal, update_entry) refl
    | inl (next, got) ↦
        rw (got, update_entry)
          (read_file-write_changed E writes (encode (decode root)) (shuffle (encode next)) root
            other (kept (decode root) next got))
  ]

  -- A field that no accepted mutation changes is the same in every entry afterwards, and the entries
  -- keep their names and order, whichever writes fail.
  pub update_entry_fields-read_file :
      (other : Text)
      → ((t next : T) → mutate t ≡ ok next → All (Keeps (encode t) other) (shuffle (encode next)))
      → (entries : Tree)
      → (map
            (λ (e : Text × Fields). e.0)
            (update_entry_fields decode encode shuffle writes selects mutate entries).1
          ≡ map (λ (e : Text × Fields). e.0) entries)
        × (map
              (λ (e : Text × Fields). read_file other e.1)
              (update_entry_fields decode encode shuffle writes selects mutate entries).1
            ≡ map (λ (e : Text × Fields). read_file other e.1) entries)
  unfolding update_entry_fields
  update_entry_fields-read_file other kept [] = (refl, refl)
  update_entry_fields-read_file other kept ((name, root) ∷ entries) =
      elim (Bool-cases (selects (decode root))) [
        | inl here ↦ rw here (
          refl,
          ap (λ r. r ∷ map (λ (e : Text × Fields). read_file other e.1) entries)
              (update_entry-read_file other kept root),
        )
        | inr there ↦
            let (names, files) = update_entry_fields-read_file other kept entries in
            rw there (ap (◌∷◌ name) names, ap (◌∷◌ (read_file other root)) files)
      ]
