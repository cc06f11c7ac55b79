-- ===== src/Relaylinks/Validity.antt =====
-- What `validate` accepts, stated without the code: a link that is sound by itself, and compatible
-- with every other entry of the registry.
use singbox_deploy.Common.{
  Text, text_eq, none, some, List, [], ◌∷◌, ◌≡◌, ◌≢◌, ◌↔◌, refl, inl, inr, arith, not-contains_iff,
  text_beq_iff, All, AllPairs, ok, ℤ, int_eq, IsPort, IsPort-iff, map, Option-cases, All-map,
  All-zip,
}
use singbox_deploy.Relaylinks.{
  Forward, Link, network_for, check_forward, check_forwards, first_clash, conflict,
}

abbrev pub ports : List Forward → List ℤ
ports = map (λ (f : Forward). f.relay_port)

-- A forward by itself: a supported protocol, its transport, a port in range.
abbrev pub IsForward : Forward → Type 0
IsForward f = (network_for f.protocol ≡ some f.network) × IsPort f.relay_port

-- Two forwards of one link: neither the protocol nor the port is the same.
abbrev pub Apart : Forward → Forward → Type 0
Apart f g = (f.protocol ≢ g.protocol) × (f.relay_port ≢ g.relay_port)

pub record IsLink (l : Link) : Type 0 where
  pub landing : l.landing_id ≢ []
  pub relay : l.relay_id ≢ []
  pub not_self : l.landing_id ≢ l.relay_id
  pub some_forward : l.forwards ≢ []
  pub forwards : All IsForward l.forwards
  pub apart : AllPairs Apart l.forwards

-- No port of the one list is in the other.
abbrev pub Disjoint : List Forward → List Forward → Type 0
Disjoint fs gs = All (λ (f : Forward). All (λ (g : Forward). g.relay_port ≢ f.relay_port) gs) fs

-- Two links of one registry: no landing node twice, no chain in either direction, and no port of a
-- common relay twice.
pub record Compatible (a b : Link) : Type 0 where
  pub landings : a.landing_id ≢ b.landing_id
  pub no_chain : a.relay_id ≢ b.landing_id
  pub no_chain_back : a.landing_id ≢ b.relay_id
  pub sockets : a.relay_id ≡ b.relay_id → Disjoint a.forwards b.forwards

-- The forward is new with respect to what the loop has seen.
abbrev pub Fresh : List ℤ → List Text → Forward → Type 0
Fresh claimed seen f =
    IsForward f × All (λ p. p ≢ f.protocol) seen × All (λ p. p ≢ f.relay_port) claimed

pub check_forward_iff :
    (claimed : List ℤ) (seen : List Text) (f : Forward)
    → (check_forward claimed seen f ≡ none) ↔ Fresh claimed seen f
unfolding check_forward
check_forward_iff claimed seen f = elim (Option-cases (network_for f.protocol)) [
  | inl bad ↦ ground arith
  | inr (network, known) ↦ ground (
    arith,
    text_beq_iff f.network network,
    not-contains_iff seen f.protocol,
    IsPort-iff f.relay_port,
    not-contains_iff claimed f.relay_port,
  )
]

-- The loop over the forwards accepts exactly what is new at each step.
abbrev pub AllFresh : List ℤ → List Text → List Forward → Type 0
AllFresh claimed seen [] = Unit
AllFresh claimed seen (f ∷ fs) =
    Fresh claimed seen f × AllFresh (f.relay_port ∷ claimed) (f.protocol ∷ seen) fs

-- The ports that the loop has claimed when it ends.
abbrev pub gather : List ℤ → List Forward → List ℤ
gather claimed [] = claimed
gather claimed (f ∷ fs) = gather (f.relay_port ∷ claimed) fs

pub check_forwards_iff :
    (claimed : List ℤ) (seen : List Text) (fs : List Forward) (c : List ℤ)
    → (check_forwards claimed seen fs ≡ ok c) ↔ (AllFresh claimed seen fs × (gather claimed fs ≡ c))
unfolding check_forwards
check_forwards_iff claimed seen [] c = (λ h. (tt, ground arith), λ h. ground arith)
check_forwards_iff claimed seen (f ∷ fs) c = ground (
  arith,
  check_forward_iff claimed seen f,
  check_forwards_iff (f.relay_port ∷ claimed) (f.protocol ∷ seen) fs c,
)

-- A forward is off what was seen and claimed.
abbrev pub Off : List ℤ → List Text → Forward → Type 0
Off claimed seen f = All (λ p. p ≢ f.protocol) seen × All (λ p. p ≢ f.relay_port) claimed

pub AllFresh-split :
    (claimed : List ℤ) (seen : List Text) (fs : List Forward)
    → AllFresh claimed seen fs
    → All IsForward fs × AllPairs Apart fs × All (Off claimed seen) fs
AllFresh-split claimed seen [] h = (tt, tt, tt)
AllFresh-split claimed seen (f ∷ fs) h =
    let (sound, apart, off) = AllFresh-split (f.relay_port ∷ claimed) (f.protocol ∷ seen) fs h.1 in
    (
      (h.0.0, sound),
      (
        All-map (Off (f.relay_port ∷ claimed) (f.protocol ∷ seen)) (Apart f) (λ g o. (o.0.0, o.1.0))
            fs off,
        apart,
      ),
      (
        (h.0.1, h.0.2),
        All-map (Off (f.relay_port ∷ claimed) (f.protocol ∷ seen)) (Off claimed seen)
            (λ g o. (o.0.1, o.1.1)) fs off,
      ),
    )

pub AllFresh-join :
    (claimed : List ℤ) (seen : List Text) (fs : List Forward)
    → All IsForward fs
    → AllPairs Apart fs
    → All (Off claimed seen) fs
    → AllFresh claimed seen fs
AllFresh-join claimed seen [] sound apart off = tt
AllFresh-join claimed seen (f ∷ fs) sound apart off = (
  (sound.0, off.0.0, off.0.1),
  AllFresh-join (f.relay_port ∷ claimed) (f.protocol ∷ seen) fs sound.1 apart.1 (
      All-zip (Apart f) (Off claimed seen) (Off (f.relay_port ∷ claimed) (f.protocol ∷ seen))
        (λ g a o. ((a.0, o.0), (a.1, o.1))) fs apart.0 off.1),
)

All-gather :
    (q : ℤ) (claimed : List ℤ) (fs : List Forward)
    → All (λ p. p ≢ q) (gather claimed fs)
      ↔ (All (λ p. p ≢ q) claimed × All (λ (f : Forward). f.relay_port ≢ q) fs)
All-gather q claimed [] = (λ h. (h, tt), λ h. h.0)
All-gather q claimed (f ∷ fs) =
    let ih = All-gather q (f.relay_port ∷ claimed) fs in
    (λ h. let (a, b) = ih.0 h in (a.1, (a.0, b)), λ h. ih.1 ((h.1.0, h.0), h.1.1))

first_clash_iff :
    (claimed : List ℤ) (fs : List Forward)
    → (first_clash claimed fs ≡ none)
      ↔ All (λ (f : Forward). All (λ p. p ≢ f.relay_port) claimed) fs
unfolding first_clash
first_clash_iff claimed [] = (λ h. tt, λ h. refl)
first_clash_iff claimed (f ∷ fs) =
    ground (arith, not-contains_iff claimed f.relay_port, first_clash_iff claimed fs)

Disjoint-iff : (gs fs : List Forward) → (first_clash (gather [] gs) fs ≡ none) ↔ Disjoint fs gs
Disjoint-iff gs fs = (
  λ h.
      All-map (λ (f : Forward). All (λ p. p ≢ f.relay_port) (gather [] gs)) _
        (λ f a. ((All-gather f.relay_port [] gs).0 a).1) fs
        ((first_clash_iff (gather [] gs) fs).0 h),
  λ h. (first_clash_iff (gather [] gs) fs).1 (
      All-map _ (λ (f : Forward). All (λ p. p ≢ f.relay_port) (gather [] gs))
        (λ f a. (All-gather f.relay_port [] gs).1 (tt, a)) fs h),
)

pub conflict_iff :
    (link existing : Link)
    → (conflict link (gather [] link.forwards) existing ≡ none) ↔ Compatible existing link
unfolding conflict
conflict_iff link existing = (
  λ h. record {
    landings = ground (arith, text_beq_iff existing.landing_id link.landing_id);
    no_chain = ground (
      arith,
      text_beq_iff existing.landing_id link.landing_id,
      text_beq_iff existing.relay_id link.landing_id,
    );
    no_chain_back = ground (
      arith,
      text_beq_iff existing.landing_id link.landing_id,
      text_beq_iff existing.relay_id link.landing_id,
      text_beq_iff existing.landing_id link.relay_id,
    );
    sockets = λ same. ground (
      arith,
      text_beq_iff existing.landing_id link.landing_id,
      text_beq_iff existing.relay_id link.landing_id,
      text_beq_iff existing.landing_id link.relay_id,
      text_beq_iff existing.relay_id link.relay_id,
      Disjoint-iff link.forwards existing.forwards,
    );
  },
  λ c. ground (
    arith,
    c.landings,
    text_beq_iff existing.landing_id link.landing_id,
    text_beq_iff existing.relay_id link.landing_id,
    text_beq_iff existing.landing_id link.relay_id,
    text_beq_iff existing.relay_id link.relay_id,
    Disjoint-iff link.forwards existing.forwards,
    c.sockets,
  ),
)
