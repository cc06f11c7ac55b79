-- ===== src/Subgroups/Rules.antt =====
-- The rules of the registry of subscription groups, and the IDs that keep them.
use singbox_deploy.Common.{
  ℕ, zero, suc, ◌/◌, ◌%◌, ◌<◌, IsLower, lower_rune, normalize_of_All, length-append, Text, none,
  some, Option, List, [], ◌∷◌, map, ◌≡◌, ◌≢◌, ◌↔◌, refl, sym, ap, ◌∙◌, inl, inr, arith, false,
  text_eq, All, AllPairs, AllBut, AllBut-map, All-append, ok, Bool-cases, normalize, normalize_idem,
  is_empty, is_empty_iff, not-contains_iff, check_others_iff, text_beq_iff, length, is_space,
  All-zip,
}
use singbox_deploy.Subgroups.{
  Group, alias_key, salt_key, hex_digit, hex_of, generate_id, assigned_id, normalize_group_ids,
  conflict, validate_unique,
}

-- An ID as it is stored.
abbrev pub IsId : Text → Type 0
IsId s = (normalize s ≡ s) × (s ≢ [])

abbrev pub IsGroup : Group → Type 0
IsGroup g = IsId g.id × (alias_key g ≢ []) × (salt_key g ≢ [])

-- Neither the ID nor the alias nor the salt is the same.
abbrev pub Distinct : Group → Group → Type 0
Distinct a b = (a.id ≢ b.id) × (alias_key a ≢ alias_key b) × (salt_key a ≢ salt_key b)

pub record IsGroups (list : List Group) : Type 0 where
  pub sound : All IsGroup list
  pub distinct : AllPairs Distinct list

pub Distinct-symm : (a b : Group) → Distinct a b → Distinct b a
Distinct-symm a b d = (λ e. d.0 (sym e), λ e. d.1 (sym e), λ e. d.2 (sym e))

-- What the loop over the other groups accepts.
conflict_iff : (g e : Group) → g.id ≢ [] → (conflict g e ≡ none) ↔ Distinct e g
unfolding conflict
conflict_iff g e h = ground (
  arith,
  is_empty_iff g.id,
  text_beq_iff g.id e.id,
  text_beq_iff (alias_key g) (alias_key e),
  text_beq_iff (salt_key g) (salt_key e),
)

-- For a group with an ID, no error is found exactly when its alias and its salt are more than spaces,
-- it has a member, and no other entry has its ID, its alias in any case, or its salt.
pub validate_unique_iff :
    (list : List Group) (g : Group) (skip : Option ℕ)
    → g.id ≢ []
    → (validate_unique list g skip ≡ none) ↔ (
        ((alias_key g ≢ []) × (salt_key g ≢ []))
        × ((g.members ≢ []) × AllBut (λ e. Distinct e g) skip 0 list))
unfolding validate_unique
validate_unique_iff list g skip h =
    let others = check_others_iff (conflict g) skip 0 list in
    let to =
      AllBut-map {Q = λ e. Distinct e g} (λ e. conflict g e ≡ none) skip 0 list
        (λ e c. (conflict_iff g e h).0 c) in
    let from =
      AllBut-map {Q = λ e. conflict g e ≡ none} (λ e. Distinct e g) skip 0 list
        (λ e c. (conflict_iff g e h).1 c) in
    ground (
      arith,
      is_empty_iff (alias_key g),
      is_empty_iff (salt_key g),
      is_empty_iff g.members,
      others,
      to,
      from,
    )

-- A change of other fields keeps the rules.
abbrev pub SameKeys : Group → Group → Type 0
SameKeys a b = (a.id ≡ b.id) × (alias_key a ≡ alias_key b) × (salt_key a ≡ salt_key b)

IsGroup-same : (a b : Group) → IsGroup b → SameKeys a b → IsGroup a
IsGroup-same a b h s = (
  (ap normalize s.0 ∙ h.0.0 ∙ sym s.0, λ e. h.0.1 (sym s.0 ∙ e)),
  λ e. h.1 (sym s.1 ∙ e),
  λ e. h.2 (sym s.2 ∙ e),
)

Distinct-same : (a b c d : Group) → SameKeys a b → SameKeys c d → Distinct b d → Distinct a c
Distinct-same a b c d s t h =
    (λ e. h.0 (sym s.0 ∙ e ∙ t.0), λ e. h.1 (sym s.1 ∙ e ∙ t.1), λ e. h.2 (sym s.2 ∙ e ∙ t.2))

All-Distinct-same :
    (f : Group → Group) (g : Group) (gs : List Group)
    → SameKeys (f g) g
    → All (λ x. SameKeys (f x) x) gs
    → All (Distinct g) gs
    → All (Distinct (f g)) (map f gs)
All-Distinct-same f g [] s t h = tt
All-Distinct-same f g (x ∷ gs) s t h =
    (Distinct-same (f g) g (f x) x s t.0 h.0, All-Distinct-same f g gs s t.1 h.1)

pub IsGroups-map :
    (f : Group → Group) (list : List Group)
    → All (λ g. SameKeys (f g) g) list
    → IsGroups list
    → IsGroups (map f list)
IsGroups-map f [] s h = record { sound = tt; distinct = tt }
IsGroups-map f (g ∷ gs) s h =
    let rest = IsGroups-map f gs s.1 (record { sound = h.sound.1; distinct = h.distinct.1 }) in
    record {
      sound = (IsGroup-same (f g) g h.sound.0 s.0, rest.sound);
      distinct = (All-Distinct-same f g gs s.0 s.1 h.distinct.0, rest.distinct);
    }

-- The IDs of a registry that keeps the rules are left as they are.
assigned_id_self : (raw : Option (ℕ → ℕ)) (id : Text) → IsId id → assigned_id raw id ≡ some id
unfolding assigned_id
assigned_id_self raw id h = rw (h.0) (ground (arith, h.1, is_empty_iff id))

-- A generated ID is one as it is stored.
hex_digit-IsLower : (d : ℕ) → d < 16 → IsLower (hex_digit d)
unfolding hex_digit is_space lower_rune
hex_digit-IsLower d h = (ground arith, ground arith)

hex_of-IsLower : (raw : ℕ → ℕ) (n : ℕ) → All IsLower (hex_of raw n)
unfolding hex_of
hex_of-IsLower raw zero = tt
hex_of-IsLower raw (suc n) =
    All-append IsLower (hex_of raw n) (hex_digit (raw n / 16 % 16) ∷ hex_digit (raw n % 16) ∷ [])
      (hex_of-IsLower raw n)
      (
        hex_digit-IsLower (raw n / 16 % 16) (omega arith),
        (hex_digit-IsLower (raw n % 16) (omega arith), tt),
      )

hex_of_normal : (raw : ℕ → ℕ) (n : ℕ) → normalize (hex_of raw n) ≡ hex_of raw n
hex_of_normal raw n = normalize_of_All (hex_of raw n) (hex_of-IsLower raw n)

hex_of_some : (raw : ℕ → ℕ) (n : ℕ) → hex_of raw (suc n) ≢ []
unfolding hex_of
hex_of_some raw n h =
    let size : suc (suc (length (hex_of raw n))) ≡ 0 =
      sym (
        length-append (hex_of raw n) (hex_digit (raw n / 16 % 16) ∷ hex_digit (raw n % 16) ∷ [])
        ∙ omega arith)
      ∙ ap length h in
    absurd (omega (arith, size))

pub normalize_group_ids_self :
    (raw : ℕ → Option (ℕ → ℕ)) (used : List Text) (i : ℕ) (list : List Group)
    → IsGroups list
    → All (λ (g : Group). All (λ u. u ≢ g.id) used) list
    → normalize_group_ids raw used i list ≡ ok (false, list)
unfolding normalize_group_ids assigned_id
normalize_group_ids_self raw used i [] h off = refl
normalize_group_ids_self raw used i (g ∷ gs) h off =
    let rest =
      normalize_group_ids_self raw (g.id ∷ used) (suc i) gs
        (record { sound = h.sound.1; distinct = h.distinct.1 })
        (All-zip (Distinct g) (λ (x : Group). All (λ u. u ≢ x.id) used)
          (λ (x : Group). All (λ u. u ≢ x.id) (g.id ∷ used)) (λ x d o. (d.0, o)) gs h.distinct.0
          off.1) in
    let fresh = (not-contains_iff used g.id).1 off.0 in
    let id : assigned_id (raw i) g.id ≡ some g.id = assigned_id_self (raw i) g.id h.sound.0.0 in
    let same = (text_beq_iff g.id g.id).1 refl in ground (arith, id, fresh, rest, same)

pub generate_id-IsId : (raw : Option (ℕ → ℕ)) {id : Text} → generate_id raw ≡ some id → IsId id
unfolding generate_id
generate_id-IsId none h = absurd (ground arith)
generate_id-IsId (some raw) {id} h =
    let e : hex_of raw 16 ≡ id = ground arith in rw (← e) (hex_of_normal raw 16, hex_of_some raw 15)

pub assigned_id-IsId :
    (raw : Option (ℕ → ℕ)) (given : Text) {id : Text} → assigned_id raw given ≡ some id → IsId id
unfolding assigned_id
assigned_id-IsId raw given {id} h = elim (Bool-cases (is_empty (normalize given))) [
  | inl e ↦ generate_id-IsId raw (ground arith)
  | inr e ↦
      let same : normalize given ≡ id = ground arith in
      rw (← same)
        (normalize_idem given, λ z. absurd (ground (arith, is_empty_iff (normalize given))))
]
