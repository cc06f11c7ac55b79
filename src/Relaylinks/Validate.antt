-- ===== src/Relaylinks/Validate.antt =====
-- `validate` decides the rules of the registry.
use singbox_deploy.Common.{
  ℕ, Option, none, List, [], ◌≡◌, ◌≢◌, ◌↔◌, inl, inr, arith, is_empty_iff, text_beq_iff, AllBut,
  check_others, check_others_iff, Result-cases, AllBut-map, All-of_All,
}
use singbox_deploy.Relaylinks.{Link, check_forwards, conflict, validate}
use singbox_deploy.Relaylinks.Validity.{
  IsLink, Off, AllFresh, Compatible, gather, check_forwards_iff, AllFresh-split, AllFresh-join,
  conflict_iff,
}

others_iff :
    (list : List Link) (link : Link) (skip : Option ℕ)
    → (check_others (conflict link (gather [] link.forwards)) skip 0 list ≡ none)
      ↔ AllBut (λ e. Compatible e link) skip 0 list
others_iff list link skip = (
  λ h.
      AllBut-map (λ e. conflict link (gather [] link.forwards) e ≡ none) skip 0 list
        (λ e. (conflict_iff link e).0)
        ((check_others_iff (conflict link (gather [] link.forwards)) skip 0 list).0 h),
  λ h.
      (check_others_iff (conflict link (gather [] link.forwards)) skip 0 list).1
        (AllBut-map (λ e. Compatible e link) skip 0 list (λ e. (conflict_iff link e).1) h),
)

-- The tests of `validate` in terms of what the loop over the forwards needs.
guards_iff :
    (list : List Link) (link : Link) (skip : Option ℕ)
    → (validate list link skip ≡ none) ↔ (
        (link.landing_id ≢ [])
        × (link.relay_id ≢ [])
        × (link.landing_id ≢ link.relay_id)
        × (link.forwards ≢ [])
        × AllFresh [] [] link.forwards
        × AllBut (λ e. Compatible e link) skip 0 list)
unfolding validate
guards_iff list link skip = elim (Result-cases (check_forwards [] [] link.forwards)) [
  | inl (c, p) ↦
      let q = (check_forwards_iff [] [] link.forwards c).0 p in
      ground (
        arith,
        q.0,
        q.1,
        is_empty_iff link.landing_id,
        is_empty_iff link.relay_id,
        text_beq_iff link.landing_id link.relay_id,
        is_empty_iff link.forwards,
        others_iff list link skip,
      )
  | inr (e, p) ↦ ground (
    arith,
    is_empty_iff link.landing_id,
    is_empty_iff link.relay_id,
    text_beq_iff link.landing_id link.relay_id,
    is_empty_iff link.forwards,
    check_forwards_iff [] [] link.forwards (gather [] link.forwards),
  )
]

-- `validate` reports no error exactly when the link is sound by itself (both nodes named and
-- distinct, at least one forward, each of a supported protocol with its transport and a port in
-- range, no protocol or port twice) and compatible with every entry but the one that it replaces.
pub validate_iff :
    (list : List Link) (link : Link) (skip : Option ℕ)
    → (validate list link skip ≡ none) ↔ (IsLink link × AllBut (λ e. Compatible e link) skip 0 list)
validate_iff list link skip = (
  λ h.
      let (landing, relay, not_self, some_forward, fresh, others) =
        (guards_iff list link skip).0 h in
      let (sound, apart, off) = AllFresh-split [] [] link.forwards fresh in
      (
        record {
          landing = landing;
          relay = relay;
          not_self = not_self;
          some_forward = some_forward;
          forwards = sound;
          apart = apart;
        },
        others,
      ),
  λ h.
      let l = h.0 in
      (guards_iff list link skip).1 (
        l.landing,
        l.relay,
        l.not_self,
        l.some_forward,
        AllFresh-join [] [] link.forwards l.forwards l.apart
            (All-of_All (Off [] []) (λ f. (tt, tt)) link.forwards),
        h.1,
      ),
)
