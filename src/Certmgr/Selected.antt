-- ===== src/Certmgr/Selected.antt =====
-- `SelectCredential` picks, of the credentials that cover a domain, one with the longest base.
use singbox_deploy.Common.{
  ℕ, ◌≤◌, Text, true, false, Option, none, some, List, [], ◌∷◌, length, ◌≡◌, ◌↔◌, ◌⊎◌, inl, inr,
  refl, sym, ap, ◌∙◌, arith, Bool-cases, Result-cases, ok, err, if◌then◌else◌, All, All-map,
}
use mathlib.Core.Path.{subst}
use singbox_deploy.Certmgr.{
  Names, DnsCredential, normalize_domain, domain_covers, is_longer, select_loop, select_credential,
}
use singbox_deploy.Certmgr.Covers.{IsUnder, domain_covers_iff}

-- The length of the base of a credential that covers the name.
weight : Names → Text → DnsCredential → Option ℕ
weight os name c = elim (normalize_domain os c.domain) [
  | err e ↦ none
  | ok base ↦ if domain_covers os base name then some (length base) else none
]

abbrev Among : (DnsCredential → Type 0) → List DnsCredential → Type 0
Among P [] = ⊥
Among P (c ∷ cs) = P c ⊎ Among P cs

Among-map :
    (P Q : DnsCredential → Type 0)
    → ((c : DnsCredential) → P c → Q c)
    → (cs : List DnsCredential) → Among P cs
    → Among Q cs
Among-map P Q f [] h = h
Among-map P Q f (c ∷ cs) (inl p) = inl (f c p)
Among-map P Q f (c ∷ cs) (inr h) = inr (Among-map P Q f cs h)

-- The weight is not above that of the result.
abbrev Bounded : Option (DnsCredential × ℕ) → Option ℕ → Type 0
Bounded r none = Unit
Bounded none (some m) = ⊥
Bounded (some b) (some m) = m ≤ b.1

abbrev second : Option (DnsCredential × ℕ) → Option ℕ
second none = none
second (some b) = some (b.1)

Bounded-trans :
    (r : Option (DnsCredential × ℕ)) (m n : ℕ) → m ≤ n → Bounded r (some n) → Bounded r (some m)
Bounded-trans none m n le h = h
Bounded-trans (some b) m n le h = omega arith

abbrev Source : Names → Text → Option (DnsCredential × ℕ) → DnsCredential → Type 0
Source os name r c = (n : ℕ) × (weight os name c ≡ some n) × (r ≡ some (c, n))

-- What the loop returns, from what it had.
abbrev Outcome :
    Names
    → Text
    → Option (DnsCredential × ℕ)
    → List DnsCredential
    → Option (DnsCredential × ℕ)
    → Type 0
Outcome os name best cs r =
    Bounded r (second best)
    × All (λ c. Bounded r (weight os name c)) cs
    × ((r ≡ best) ⊎ Among (Source os name r) cs)

Bounded-self : (best : Option (DnsCredential × ℕ)) → Bounded best (second best)
Bounded-self none = tt
Bounded-self (some b) = omega arith

skip_it :
    (os : Names) (name : Text) (best : Option (DnsCredential × ℕ)) (c : DnsCredential)
    (cs : List DnsCredential) (r : Option (DnsCredential × ℕ))
    → Bounded r (weight os name c)
    → Outcome os name best cs r
    → Outcome os name best (c ∷ cs) r
skip_it os name best c cs r own (above, others, from) =
    (above, (own, others), elim from [ inl e ↦ inl e | inr a ↦ inr (inr a) ])

not_longer :
    (r best : Option (DnsCredential × ℕ)) (n : ℕ)
    → is_longer n best ≡ false
    → Bounded r (second best)
    → Bounded r (some n)
unfolding is_longer
not_longer r none n h above = absurd (ground arith)
not_longer r (some b) n h above = Bounded-trans r n (b.1) (ground arith) above

longer :
    (r best : Option (DnsCredential × ℕ)) (n : ℕ)
    → is_longer n best ≡ true
    → Bounded r (some n)
    → Bounded r (second best)
unfolding is_longer
longer r none n h above = tt
longer r (some b) n h above = Bounded-trans r (b.1) n (ground arith) above

take_it :
    (os : Names) (name : Text) (best : Option (DnsCredential × ℕ)) (c : DnsCredential) (n : ℕ)
    (cs : List DnsCredential) (r : Option (DnsCredential × ℕ))
    → weight os name c ≡ some n
    → is_longer n best ≡ true
    → Outcome os name (some (c, n)) cs r
    → Outcome os name best (c ∷ cs) r
take_it os name best c n cs r w h (above, others, from) = (
  longer r best n h above,
  (rw w above, others),
  elim from [ inl e ↦ inr (inl (n, w, e)) | inr a ↦ inr (inr a) ],
)

-- One round of the loop.
round :
    (os : Names) (name : Text) (best : Option (DnsCredential × ℕ)) (c : DnsCredential)
    (cs : List DnsCredential)
    → ((weight os name c ≡ none)
        × (select_loop os name best (c ∷ cs) ≡ select_loop os name best cs))
      ⊎ ((n : ℕ) × (weight os name c ≡ some n)
          × (((is_longer n best ≡ true)
                × (select_loop os name best (c ∷ cs) ≡ select_loop os name (some (c, n)) cs))
              ⊎ ((is_longer n best ≡ false)
                  × (select_loop os name best (c ∷ cs) ≡ select_loop os name best cs))))
unfolding select_loop weight
round os name best c cs = elim (Result-cases (normalize_domain os c.domain)) [
  | inr (e, bad) ↦ inl (ground (arith, bad), ground (arith, bad))
  | inl (base, good) ↦ elim (Bool-cases (domain_covers os base name)) [
    | inr off ↦ inl (ground (arith, good, off), ground (arith, good, off))
    | inl on ↦ inr (
      length base,
      ground (arith, good, on),
      elim (Bool-cases (is_longer (length base) best)) [
        | inl more ↦ inl (more, ground (arith, good, on, more))
        | inr less ↦ inr (less, ground (arith, good, on, less))
      ],
    )
  ]
]

select_loop_end :
    (os : Names) (name : Text) (best : Option (DnsCredential × ℕ))
    → select_loop os name best [] ≡ best
unfolding select_loop
select_loop_end os name best = refl

select_loop-Outcome :
    (os : Names) (name : Text) (best : Option (DnsCredential × ℕ)) (cs : List DnsCredential)
    → Outcome os name best cs (select_loop os name best cs)
select_loop-Outcome os name best [] =
    subst (Outcome os name best []) (sym (select_loop_end os name best))
      (Bounded-self best, tt, inl refl)
select_loop-Outcome os name best (c ∷ cs) =
    let same = select_loop-Outcome os name best cs in
    elim (round os name best c cs) [
      | inl (w, e) ↦
          subst (Outcome os name best (c ∷ cs)) (sym e)
            (skip_it os name best c cs (select_loop os name best cs) (rw w tt) same)
      | inr (n, w, inl (more, e)) ↦ subst (Outcome os name best (c ∷ cs)) (sym e) (
          take_it os name best c n cs (select_loop os name (some (c, n)) cs) w more
            (select_loop-Outcome os name (some (c, n)) cs))
      | inr (n, w, inr (less, e)) ↦ subst (Outcome os name best (c ∷ cs)) (sym e) (
          skip_it os name best c cs (select_loop os name best cs)
            (rw w (not_longer (select_loop os name best cs) best n less (same.0))) same)
    ]

-- The credential covers the name by a base of that length.
abbrev pub Covers : Names → Text → DnsCredential → ℕ → Type 0
Covers os name c n =
    (base : Text) × (normalize_domain os c.domain ≡ ok base)
    × (length base ≡ n)
    × (b : Text) × (d : Text) × (normalize_domain os base ≡ ok b)
    × (normalize_domain os name ≡ ok d)
    × IsUnder b d

weight_iff :
    (os : Names) (name : Text) (c : DnsCredential) (n : ℕ)
    → (weight os name c ≡ some n) ↔ Covers os name c n
unfolding weight
weight_iff os name c n = elim (Result-cases (normalize_domain os c.domain)) [
  | inr (e, bad) ↦ (λ h. absurd (ground arith), λ h. absurd (ground (arith, h.1)))
  | inl (base, good) ↦
      let covers = domain_covers_iff os base name in
      (
        λ h.
            let v = covers.0 (ground arith) in
            (base, good, ground (arith, covers.1 v), v.0, v.1, v.2, v.3, v.4),
        λ h.
            let same : h.0 ≡ base = ground (arith, h.1) in
            let on = (domain_covers_iff os (h.0) name).1 (h.3, h.4, h.5, h.6, h.7) in
            let on' = rw same at on in
            let size : length base ≡ n = ap length (sym same) ∙ h.2 in
            ground (arith, good, on', size),
      )
]

-- What the selection is: of no credential where none covers the name, and else of one of them that
-- covers it, where no other that covers it has a longer base.
abbrev pub Selected : Names → Text → List DnsCredential → Option DnsCredential → Type 0
Selected os name creds none = All (λ c. (n : ℕ) → ¬ Covers os name c n) creds
Selected os name creds (some s) =
    (n : ℕ) × Among (λ c. (c ≡ s) × Covers os name c n) creds
    × All (λ c. (m : ℕ) → Covers os name c m → m ≤ n) creds

none_above :
    (os : Names) (name : Text) (c : DnsCredential) (n : ℕ)
    → Bounded none (weight os name c)
    → ¬ Covers os name c n
none_above os name c n h v = let w = (weight_iff os name c n).1 v in absurd (rw w at h)

at_most :
    (os : Names) (name : Text) (s : DnsCredential) (n : ℕ) (c : DnsCredential) (m : ℕ)
    → Bounded (some (s, n)) (weight os name c)
    → Covers os name c m
    → m ≤ n
at_most os name s n c m h v = let w = (weight_iff os name c m).1 v in rw w at h

abbrev found : Option (DnsCredential × ℕ) → Option DnsCredential
found none = none
found (some b) = some (b.0)

select_credential-found :
    (os : Names) (creds : List DnsCredential) (domain name : Text)
    → normalize_domain os domain ≡ ok name
    → select_credential os creds domain ≡ found (select_loop os name none creds)
unfolding select_credential
select_credential-found os creds domain name h = ground (arith, h)

Selected-of_Outcome :
    (os : Names) (name : Text) (creds : List DnsCredential) (r : Option (DnsCredential × ℕ))
    → Outcome os name none creds r
    → Selected os name creds (found r)
Selected-of_Outcome os name creds none (above, others, from) =
    All-map (λ c. Bounded none (weight os name c)) (λ c. (n : ℕ) → ¬ Covers os name c n)
      (λ c h n. none_above os name c n h) creds others
Selected-of_Outcome os name creds (some b) (above, others, from) = (
  b.1,
  elim from [
    | inl e ↦ absurd (ground arith)
    | inr a ↦
        Among-map (Source os name (some b)) (λ c. (c ≡ b.0) × Covers os name c (b.1))
          (λ c (n, w, e).
            let same : c ≡ b.0 = ground (arith, e) in
            let size : n ≡ b.1 = ground (arith, e) in
            (same, (weight_iff os name c (b.1)).0 (w ∙ ap some size)))
          creds a
  ],
  All-map (λ c. Bounded (some b) (weight os name c)) (λ c. (m : ℕ) → Covers os name c m → m ≤ b.1)
      (λ c h m v. at_most os name (b.0) (b.1) c m h v) creds others,
)

-- For a domain with a normal form, `SelectCredential` finds nothing exactly where no credential
-- covers it; and what it finds is one of the credentials, covers the domain (it is the base of the
-- credential, or ends in a dot and that base), and has a base at least as long as that of every
-- other credential that covers it.
pub select_credential-Selected :
    (os : Names) (creds : List DnsCredential) (domain name : Text)
    → normalize_domain os domain ≡ ok name
    → Selected os name creds (select_credential os creds domain)
select_credential-Selected os creds domain name h =
    subst (Selected os name creds) (sym (select_credential-found os creds domain name h)) (
      Selected-of_Outcome os name creds (select_loop os name none creds)
        (select_loop-Outcome os name none creds))
