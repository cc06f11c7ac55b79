-- ===== src/Nodes/Values.antt =====
-- What the single fields of a node read as.
use singbox_deploy.Common.{
  ℕ, ◌<◌, Text, codes, text_eq, text_beq, ◌==◌, Bool, true, false, Option, none, some, List, [],
  ◌∷◌, ◌++◌, ◌≡◌, ◌≢◌, refl, ap, ◌∙◌, arith, join, split-join, Lacks, All, All-map, trim_space,
  trim_space_idem, or_empty, trim_space-newline, trim_space_of_All, is_space, itoa, itoa-cons,
  format_nat, format_nat-some, IsNumeral, IsNumeral-itoa, IsNumeral-format_nat, atoi_value,
  atoi_value-itoa, parse_uint, parse_uint-format_nat, FitsInt, uint_limit, ℤ, is_empty,
  is_empty_iff, if◌then◌else◌,
}
use singbox_deploy.Nodes.{Clock, IsClock}
use singbox_deploy.Nodes.Codec.{yes_no, format_seen, decode_protocols}

-- The protocols can be told apart in one line: none holds a comma, and the line is not empty and
-- neither begins nor ends with a space.
pub record IsListing (ps : List Text) : Type 0 where
  pub parts : All (Lacks b',') ps
  pub trimmed : trim_space (join b',' ps) ≡ join b',' ps
  pub some_text : ps ≢ [] → join b',' ps ≢ []

-- What a field file reads as, for its value and the fallback.
abbrev pub read_back : Text → Text → Text
read_back value fallback =
    if is_empty (trim_space (value ++ 10 ∷ [])) then fallback else trim_space (value ++ 10 ∷ [])

pub text_field :
    (value fallback : Text)
    → read_back value fallback
      ≡ (if is_empty (trim_space value) then fallback else trim_space value)
text_field value fallback = rw (trim_space-newline value) refl

pub trim_or :
    (s : Text)
    → trim_space s ≡ s
    → (if is_empty (trim_space (trim_space s)) then [] else trim_space (trim_space s)) ≡ s
trim_or s h = or_empty (trim_space (trim_space s)) ∙ trim_space_idem s ∙ h

not-is_space : (c : ℕ) → IsNumeral c → is_space c ≡ false
unfolding is_space
not-is_space c h = ground arith

numeral_back :
    (s fallback : Text) (c : ℕ) (rest : Text)
    → All IsNumeral s
    → s ≡ c ∷ rest
    → (if is_empty (trim_space s) then fallback else trim_space s) ≡ s
numeral_back s fallback c rest h e =
    rw (trim_space_of_All s (All-map IsNumeral (λ x. is_space x ≡ false) not-is_space s h))
      (rw e refl)

pub int_back :
    (p : ℤ)
    → FitsInt p
    → atoi_value (if is_empty (trim_space (itoa p)) then codes "0" else trim_space (itoa p)) ≡ p
int_back p h =
    let (c, rest, e) = itoa-cons p in
    ap atoi_value (numeral_back (itoa p) (codes "0") c rest (IsNumeral-itoa p) e)
    ∙ atoi_value-itoa p h

pub uint_back :
    (n : ℕ)
    → n < uint_limit
    → parse_uint
        (if is_empty (trim_space (format_nat n)) then codes "0" else trim_space (format_nat n))
      ≡ n
uint_back n h =
    let (c, rest, e) = format_nat-some n in
    ap parse_uint (numeral_back (format_nat n) (codes "0") c rest (IsNumeral-format_nat n) e)
    ∙ parse_uint-format_nat n h

pub no_back : (b : Bool) → (read_back (yes_no b) (codes "no") == codes "yes") ≡ b
unfolding yes_no trim_space text_beq
no_back true = refl
no_back false = refl

pub yes_back : (b : Bool) → (read_back (yes_no b) (codes "yes") == codes "yes") ≡ b
unfolding yes_no trim_space text_beq
yes_back true = refl
yes_back false = refl

pub seen_back :
    (clock : Clock)
    → IsClock clock
    → (t : Option ℕ)
    → clock.parse (
        if is_empty (trim_space (format_seen clock t))
        then []
        else trim_space (format_seen clock t))
      ≡ t
unfolding format_seen trim_space
seen_back clock laws none = laws.nothing
seen_back clock laws (some t) =
    ap clock.parse (or_empty (trim_space (clock.format t)) ∙ laws.trimmed t) ∙ laws.back t

listing : (ps : List Text) → IsListing ps → decode_protocols (join b',' ps) ≡ ps
unfolding decode_protocols join
listing [] h = refl
listing (p ∷ ps) h =
    let some_text = h.some_text (λ e. absurd (ground arith)) in
    ground (arith, some_text, is_empty_iff (join b',' (p ∷ ps)), split-join b',' p ps h.parts)

pub protocols_back :
    (ps : List Text)
    → IsListing ps
    → decode_protocols
        (if is_empty (trim_space (join b',' ps)) then [] else trim_space (join b',' ps))
      ≡ ps
protocols_back ps h =
    ap decode_protocols (or_empty (trim_space (join b',' ps)) ∙ h.trimmed) ∙ listing ps h

-- What comes back of a text that is stored with its outer spaces.
pub text_back :
    (s : Text)
    → (if is_empty (trim_space (trim_space s)) then [] else trim_space (trim_space s))
      ≡ trim_space s
text_back s = or_empty (trim_space (trim_space s)) ∙ trim_space_idem s
