-- ===== src/Certmgr/Covers.antt =====
-- Which names a base domain covers, stated without the code.
use singbox_deploy.Common.{
  ℕ, Text, text_eq, text_beq_iff, ◌==◌, true, [], ◌∷◌, ◌++◌, ◌≡◌, ◌↔◌, ◌⊎◌, inl, inr, refl, ap,
  arith, Bool-cases, Result-cases, ok,
}
use singbox_deploy.Certmgr.{Names, normalize_domain, has_suffix, covers_name, domain_covers}

-- The base itself, or a name that ends in a dot and the base.
abbrev pub IsUnder : Text → Text → Type 0
IsUnder base domain = (domain ≡ base) ⊎ ((p : Text) × (domain ≡ p ++ b'.' ∷ base))

abbrev drop_head : Text → Text
drop_head [] = []
drop_head (c ∷ s) = s

some_end : (p : Text) (d : ℕ) (t : Text) → [] ≡ p ++ d ∷ t → ⊥
some_end [] d t e = absurd (ground arith)
some_end (c ∷ p) d t e = absurd (ground arith)

-- The text is the suffix, or what follows its first character ends in it.
ends_iff :
    (c : ℕ) (s suffix : Text)
    → ((p : Text) × (c ∷ s ≡ p ++ suffix)) ↔ ((c ∷ s ≡ suffix) ⊎ ((p : Text) × (s ≡ p ++ suffix)))
ends_iff c s suffix =
    (λ h. first (h.0) (h.1), λ h. elim h [ inl e ↦ ([], e) | inr r ↦ (c ∷ r.0, ap (◌∷◌ c) (r.1)) ])
  where
    first : (p : Text) → c ∷ s ≡ p ++ suffix → (c ∷ s ≡ suffix) ⊎ ((q : Text) × (s ≡ q ++ suffix))
    first [] e = inl e
    first (d ∷ p) e = inr (p, ap drop_head e)

suffix_iff : (d : ℕ) (s t : Text) → (has_suffix s (d ∷ t) ≡ true) ↔ ((p : Text) × (s ≡ p ++ d ∷ t))
unfolding has_suffix
suffix_iff d [] t = (λ h. absurd (ground arith), λ h. absurd (some_end (h.0) d t (h.1)))
suffix_iff d (c ∷ s) t =
    let rest = suffix_iff d s t in
    let ends = ends_iff c s (d ∷ t) in
    let same = text_beq_iff (c ∷ s) (d ∷ t) in
    elim (Bool-cases ((c ∷ s) == (d ∷ t))) [
      | inl e ↦ (λ h. ends.1 (inl (same.0 e)), λ h. rw e refl)
      | inr e ↦ (
        λ h. ends.1 (inr (rest.0 (ground arith))),
        λ h. elim (ends.0 h) [
          | inl f ↦ absurd (ground (arith, same.1 f))
          | inr r ↦ rw e (rest.1 r)
        ],
      )
    ]

covers_name_iff : (base domain : Text) → (covers_name base domain ≡ true) ↔ IsUnder base domain
unfolding covers_name
covers_name_iff base domain =
    let under = suffix_iff b'.' domain base in
    (
      λ h. elim (Bool-cases (domain == base)) [
        | inl e ↦ inl ((text_beq_iff domain base).0 e)
        | inr e ↦ inr (under.0 (ground arith))
      ],
      λ h. elim h [
        | inl e ↦ ground (arith, text_beq_iff domain base)
        | inr u ↦ let t = under.1 u in ground arith
      ],
    )

-- `DomainCovers` says that a base covers a domain exactly when both are names, and the normal form
-- of the domain is that of the base or ends in a dot and that of the base.
pub domain_covers_iff :
    (os : Names) (base domain : Text)
    → (domain_covers os base domain ≡ true) ↔ (
        (b : Text) × (d : Text) × (normalize_domain os base ≡ ok b)
        × (normalize_domain os domain ≡ ok d)
        × IsUnder b d)
unfolding domain_covers
domain_covers_iff os base domain = elim (Result-cases (normalize_domain os base)) [
  | inr (e, bad) ↦ (λ h. absurd (ground arith), λ h. absurd (ground (arith, h.2)))
  | inl (b, good) ↦ elim (Result-cases (normalize_domain os domain)) [
    | inr (e, bad) ↦ (λ h. absurd (ground arith), λ h. absurd (ground (arith, h.3)))
    | inl (d, fine) ↦ (
      λ h. (b, d, good, fine, (covers_name_iff b d).0 (ground arith)),
      λ h.
          let covered = (covers_name_iff (h.0) (h.1)).1 (h.4) in
          ground (arith, good, fine, covered, h.2, h.3),
    )
  ]
]
