-- ===== src/Relaylinks/Codec.antt =====
-- internal/relaylinks/relaylinks.go: how a link is stored in its entry directory, and that it comes
-- back unchanged.
use singbox_deploy.Common.{
  ℕ, ◌≤◌, Text, codes, text_eq, text_beq_iff, List, [], ◌∷◌, ◌++◌, map, Option, none, some, ◌≡◌,
  ◌≢◌, refl, ap, ◌∙◌, ◌⊎◌, inl, inr, arith, ℤ, pos, negsuc, IsPort, split, join, split-append,
  split_of_Lacks, split-join, Lacks, atoi, itoa, itoa-pos, atoi-itoa, format_nat,
  IsDigit-format_nat, IsDigit, trim_space, normalize, trim_space_of_All, is_space, All, All-append,
  All-map, false,
}
use singbox_deploy.State.Entries.{Fields, read_entry_value}
use singbox_deploy.Relaylinks.{
  Forward, Link, network_for, reality_vision, reality_grpc, anytls, hysteria2, tuic,
}
use singbox_deploy.Relaylinks.Validity.{IsForward}

abbrev with_port : Text → Text → Option ℤ → Option Forward
with_port protocol network none = none
with_port protocol network (some p) =
    some (record { protocol = protocol; network = network; relay_port = p })

-- `len(fields) != 3 && len(fields) != 4` skips the record; a fourth field is ignored.
unfoldable pub record_of : List Text → Option Forward
record_of (protocol ∷ network ∷ port ∷ []) = with_port protocol network (atoi port)
record_of (protocol ∷ network ∷ port ∷ landing_port ∷ []) = with_port protocol network (atoi port)
record_of _ = none

abbrev keep : Option Forward → List Forward → List Forward
keep none out = out
keep (some f) out = f ∷ out

unfoldable pub decode_records : List Text → List Forward
decode_records [] = []
decode_records (r ∷ rs) = keep (record_of (split b':' (trim_space r))) (decode_records rs)

unfoldable pub decode_forwards : Text → List Forward
decode_forwards value = decode_records (split b',' value)

-- `fmt.Sprintf("%s:%s:%d", ...)`
unfoldable pub encode_forward : Forward → Text
encode_forward f = f.protocol ++ (b':' ∷ (f.network ++ (b':' ∷ itoa f.relay_port)))

unfoldable pub encode_forwards : List Forward → Text
encode_forwards fs = join b',' (map encode_forward fs)

unfoldable pub decode_link : Fields → Link
decode_link root = record {
  landing_id = normalize (read_entry_value root (codes "landing_id") []);
  relay_id = normalize (read_entry_value root (codes "relay_id") []);
  forwards = decode_forwards (read_entry_value root (codes "forwards") []);
}

unfoldable pub encode_link : Link → Fields
encode_link l =
    (codes "landing_id", normalize l.landing_id)
    ∷ (codes "relay_id", normalize l.relay_id)
    ∷ (codes "forwards", encode_forwards l.forwards)
    ∷ []

-- Letters, digits and the dash: no separator and no space.
abbrev IsPlain : ℕ → Type 0
IsPlain c = (45 ≤ c) × (c ≤ 122) × (c ≢ b':')

pub not-is_space : (c : ℕ) → 44 ≤ c → c ≤ 122 → is_space c ≡ false
unfolding is_space
not-is_space c lo hi = ground arith

-- The five protocols that `NetworkFor` knows.
network_for_cases :
    (p : Text) {n : Text}
    → network_for p ≡ some n
    → (((p ≡ reality_vision) ⊎ ((p ≡ reality_grpc) ⊎ (p ≡ anytls))) × (n ≡ codes "tcp"))
      ⊎ (((p ≡ hysteria2) ⊎ (p ≡ tuic)) × (n ≡ codes "udp"))
unfolding network_for
network_for_cases p h = ground (
  arith,
  text_beq_iff p reality_vision,
  text_beq_iff p reality_grpc,
  text_beq_iff p anytls,
  text_beq_iff p hysteria2,
  text_beq_iff p tuic,
)

plain : (c p : Text) → p ≡ c → All IsPlain c → All IsPlain p
plain c p e h = rw e h

protocol-IsPlain : (p : Text) {n : Text} → network_for p ≡ some n → All IsPlain p × All IsPlain n
protocol-IsPlain p {n} h = elim (network_for_cases p h) [
  | inl (inl e, m) ↦ (plain reality_vision p e (omega arith), plain (codes "tcp") n m (omega arith))
  | inl (inr (inl e), m) ↦
      (plain reality_grpc p e (omega arith), plain (codes "tcp") n m (omega arith))
  | inl (inr (inr e), m) ↦ (plain anytls p e (omega arith), plain (codes "tcp") n m (omega arith))
  | inr (inl e, m) ↦ (plain hysteria2 p e (omega arith), plain (codes "udp") n m (omega arith))
  | inr (inr e, m) ↦ (plain tuic p e (omega arith), plain (codes "udp") n m (omega arith))
]

IsPlain-itoa : (p : ℤ) → IsPort p → All IsPlain (itoa p)
IsPlain-itoa (pos n) h = rw (itoa-pos n) (
    All-map IsDigit IsPlain (λ c d. (omega arith, omega arith, omega arith)) (format_nat n)
      (IsDigit-format_nat n))
IsPlain-itoa (negsuc n) h = absurd h

abbrev no_colon : (s : Text) → All IsPlain s → Lacks b':' s
no_colon s = All-map IsPlain (λ c. c ≢ b':') (λ c p. p.2) s

-- The characters of a whole record: plain ones and the colons.
abbrev pub IsInner : ℕ → Type 0
IsInner c = (45 ≤ c) × (c ≤ 122)

inner : (s : Text) → All IsPlain s → All IsInner s
inner s = All-map IsPlain IsInner (λ c p. (p.0, p.1)) s

pub IsInner-encode_forward : (f : Forward) → IsForward f → All IsInner (encode_forward f)
unfolding encode_forward
IsInner-encode_forward f h =
    let (p, n) = protocol-IsPlain f.protocol h.0 in
    All-append IsInner f.protocol (b':' ∷ (f.network ++ (b':' ∷ itoa f.relay_port)))
      (inner f.protocol p)
      (
        omega arith,
        All-append IsInner f.network (b':' ∷ itoa f.relay_port) (inner f.network n)
            (omega arith, inner (itoa f.relay_port) (IsPlain-itoa f.relay_port h.1)),
      )

atoi-itoa_port : (p : ℤ) → IsPort p → atoi (itoa p) ≡ some p
atoi-itoa_port (pos n) h = atoi-itoa n (omega arith)
atoi-itoa_port (negsuc n) h = absurd h

split-encode_forward :
    (f : Forward)
    → IsForward f
    → split b':' (encode_forward f) ≡ f.protocol ∷ f.network ∷ itoa f.relay_port ∷ []
unfolding encode_forward
split-encode_forward f h =
    let (p, n) = protocol-IsPlain f.protocol h.0 in
    split-append b':' f.protocol _ (no_colon f.protocol p)
    ∙ ap (◌∷◌ f.protocol) (
        split-append b':' f.network _ (no_colon f.network n)
        ∙ ap (◌∷◌ f.network) (
            split_of_Lacks b':' (itoa f.relay_port)
              (no_colon (itoa f.relay_port) (IsPlain-itoa f.relay_port h.1))))

record_of-encode_forward :
    (f : Forward) → IsForward f → record_of (split b':' (trim_space (encode_forward f))) ≡ some f
unfolding record_of
record_of-encode_forward f h =
    rw
      (
        trim_space_of_All (encode_forward f) (
            All-map IsInner (λ c. is_space c ≡ false) (λ c i. not-is_space c (omega arith) i.1)
              (encode_forward f) (IsInner-encode_forward f h)),
        split-encode_forward f h,
        atoi-itoa_port f.relay_port h.1,
      )
      refl

decode_records-encode :
    (fs : List Forward) → All IsForward fs → decode_records (map encode_forward fs) ≡ fs
unfolding decode_records
decode_records-encode [] h = refl
decode_records-encode (f ∷ fs) h =
    rw (record_of-encode_forward f h.0, decode_records-encode fs h.1) refl

no_comma : (fs : List Forward) → All IsForward fs → All (Lacks b',') (map encode_forward fs)
no_comma [] h = tt
no_comma (f ∷ fs) h = (
  All-map IsInner (λ c. c ≢ b',') (λ c i. omega arith) (encode_forward f)
      (IsInner-encode_forward f h.0),
  no_comma fs h.1,
)

decode_forwards_nil : decode_forwards (encode_forwards []) ≡ []
unfolding decode_forwards encode_forwards split join decode_records record_of trim_space
decode_forwards_nil = refl

-- What `encodeForwards` writes for forwards that validation accepts, `decodeForwards` reads back.
pub decode_forwards-encode_forwards :
    (fs : List Forward) → All IsForward fs → decode_forwards (encode_forwards fs) ≡ fs
unfolding decode_forwards encode_forwards
decode_forwards-encode_forwards [] h = decode_forwards_nil
decode_forwards-encode_forwards (f ∷ fs) h =
    rw (split-join b',' (encode_forward f) (map encode_forward fs) (no_comma (f ∷ fs) h))
      (decode_records-encode (f ∷ fs) h)
