-- ===== src/Relay/Dispatch.antt =====
-- The rules of a job send every flow to the landing node that the job names for it.
use singbox_deploy.Common.{
  Text, text_eq, text_beq_iff, ◌==◌, Bool, true, false, ◌&&◌, Option, none, some, List, [], ◌∷◌,
  ◌++◌, map, ◌≡◌, ◌≢◌, ◌↔◌, refl, sym, ◌∙◌, inl, inr, arith, find?, All, AllPairs, All-append_split,
  Rearranged-symm, All-Rearranged, AllPairs-Rearranged, Rearranged, Rearranged-refl,
  Rearranged-both, Rearranged-map, Bool-cases, map-append, AllPairs-of_map, All-of_map,
  find?-none_of_All, All-zip, map-map, codes, itoa, ℤ, int_eq, int_beq_iff,
}
use singbox_deploy.Relay.{Forward, Landing, socket}
use singbox_deploy.Relay.Validity.{sockets}
use singbox_deploy.Relay.Rules.{
  ResolvedLanding, Dnat, Masquerade, dnat_of, masquerade_of, prerouting, postrouting,
  insert_forward, sorted_forwards, listens_before,
}

-- What the kernel does with a packet in a chain: the first rule that matches it decides.
abbrev pub dispatch : List Dnat → Text → ℤ → Option Dnat
dispatch rules network port =
    find? (λ (d : Dnat). d.network == network && d.listen_port == port) rules

insert_forward-Rearranged :
    (f : Forward) (gs : List Forward) → Rearranged (f ∷ gs) (insert_forward f gs)
unfolding insert_forward
insert_forward-Rearranged f [] = Rearranged-refl (f ∷ [])
insert_forward-Rearranged f (g ∷ gs) = elim (Bool-cases (listens_before g f)) [
  | inl e ↦ rw e (
      Rearranged.follow (Rearranged.swap f g gs)
        (Rearranged.keep g (insert_forward-Rearranged f gs)))
  | inr e ↦ rw e (Rearranged-refl (f ∷ g ∷ gs))
]

pub sorted_forwards-Rearranged : (fs : List Forward) → Rearranged fs (sorted_forwards fs)
unfolding sorted_forwards
sorted_forwards-Rearranged [] = Rearranged.done
sorted_forwards-Rearranged (f ∷ fs) =
    Rearranged.follow (Rearranged.keep f (sorted_forwards-Rearranged fs))
      (insert_forward-Rearranged f (sorted_forwards fs))

-- A mapping as the rule that does it at an address.
abbrev pub rewrite_to : Text → Forward → Dnat
rewrite_to ip f = record {
  network = f.network;
  listen_port = f.listen_port;
  address = ip;
  target_port = f.target_port;
}

-- The flows of the landing nodes, in the order of the job.
abbrev pub flows : List ResolvedLanding → List Dnat
flows [] = []
flows (r ∷ rs) = map (rewrite_to r.ip) r.landing.forwards ++ flows rs

pub prerouting-Rearranged : (rs : List ResolvedLanding) → Rearranged (flows rs) (prerouting rs)
unfolding prerouting dnat_of
prerouting-Rearranged [] = Rearranged.done
prerouting-Rearranged (r ∷ rs) =
    Rearranged-both
      (Rearranged-map (rewrite_to r.ip) (sorted_forwards-Rearranged r.landing.forwards))
      (prerouting-Rearranged rs)

dnat_socket : Dnat → Text
dnat_socket d = d.network ++ codes "/" ++ itoa d.listen_port

abbrev pub landings_of : List ResolvedLanding → List Landing
landings_of = map (λ (r : ResolvedLanding). r.landing)

sockets-flows : (rs : List ResolvedLanding) → map dnat_socket (flows rs) ≡ sockets (landings_of rs)
unfolding dnat_socket socket
sockets-flows [] = refl
sockets-flows (r ∷ rs) =
    map-append dnat_socket (map (rewrite_to r.ip) r.landing.forwards) (flows rs)
    ∙ (λ i. map-map (rewrite_to r.ip) dnat_socket r.landing.forwards i ++ sockets-flows rs i)

-- The test of a rule against the socket of another.
abbrev pub matches : Text → ℤ → Dnat → Bool
matches network port d = d.network == network && d.listen_port == port

matches_iff :
    (a b : Dnat)
    → (matches a.network a.listen_port b ≡ true)
      ↔ ((b.network ≡ a.network) × (b.listen_port ≡ a.listen_port))
matches_iff a b =
    ground (arith, text_beq_iff b.network a.network, int_beq_iff b.listen_port a.listen_port)

-- Where no two rules have the same socket, each is the one that decides for its socket.
own_rule :
    (ds : List Dnat)
    → AllPairs (λ a b. dnat_socket a ≢ dnat_socket b) ds
    → All (λ d. dispatch ds d.network d.listen_port ≡ some d) ds
unfolding find? dnat_socket
own_rule [] h = tt
own_rule (d ∷ ds) h = (
  rw ((matches_iff d d).1 (refl, refl)) refl,
  All-zip (λ e. dnat_socket d ≢ dnat_socket e) (λ e. dispatch ds e.network e.listen_port ≡ some e)
      (λ e. dispatch (d ∷ ds) e.network e.listen_port ≡ some e)
      (λ e apart found. elim (Bool-cases (matches e.network e.listen_port d)) [
        | inl same ↦
            let s = (matches_iff e d).0 same in
            absurd (apart (λ i. s.0 i ++ codes "/" ++ itoa (s.1 i)))
        | inr other ↦ rw other found
      ])
      ds h.0 (own_rule ds h.1),
)

-- What holds of the rules of each landing node, from what holds of all of them.
All-of_flows :
    (P : Dnat → Type 0) (rs : List ResolvedLanding)
    → All P (flows rs)
    → All (λ (r : ResolvedLanding). All (λ f. P (rewrite_to r.ip f)) r.landing.forwards) rs
All-of_flows P [] h = tt
All-of_flows P (r ∷ rs) h =
    let (own, rest) = All-append_split P (map (rewrite_to r.ip) r.landing.forwards) (flows rs) h in
    (All-of_map (rewrite_to r.ip) P r.landing.forwards own, All-of_flows P rs rest)

-- The rule that rewrites the source of a flow that another rule sent on.
abbrev pub masquerade_for : Dnat → Masquerade
masquerade_for d = record { address = d.address; network = d.network; target_port = d.target_port }

postrouting-prerouting :
    (rs : List ResolvedLanding) → postrouting rs ≡ map masquerade_for (prerouting rs)
unfolding postrouting prerouting masquerade_of dnat_of
postrouting-prerouting [] = refl
postrouting-prerouting (r ∷ rs) =
    let fs = sorted_forwards r.landing.forwards in
    sym (
      map-append masquerade_for (map (rewrite_to r.ip) fs) (prerouting rs)
      ∙ (λ i. map-map (rewrite_to r.ip) masquerade_for fs i ++ sym (postrouting-prerouting rs) i))

-- What a ruleset does for the landing nodes that it was made of.
pub record Forwards (rs : List ResolvedLanding) : Type 0 where
  pub own :
      All
        (λ (r : ResolvedLanding).
          All
            (λ (f : Forward).
              dispatch (prerouting rs) f.network f.listen_port ≡ some (rewrite_to r.ip f))
            r.landing.forwards)
        rs
  pub other :
      (network : Text) (port : ℤ)
      → All (λ d. matches network port d ≡ false) (flows rs)
      → dispatch (prerouting rs) network port ≡ none
  pub back : postrouting rs ≡ map masquerade_for (prerouting rs)

pub Forwards-of_apart :
    (rs : List ResolvedLanding) → AllPairs (λ a b. a ≢ b) (sockets (landings_of rs)) → Forwards rs
Forwards-of_apart rs apart = record {
  own =
      let apart' = rw (← sockets-flows rs) at apart in
      let ds =
        AllPairs-Rearranged (λ a b. dnat_socket a ≢ dnat_socket b) (λ a b n z. n (sym z))
          (prerouting-Rearranged rs)
          (AllPairs-of_map dnat_socket (λ a b. a ≢ b) (flows rs) apart') in
      All-of_flows (λ d. dispatch (prerouting rs) d.network d.listen_port ≡ some d) rs
        (All-Rearranged (λ d. dispatch (prerouting rs) d.network d.listen_port ≡ some d)
          (Rearranged-symm (prerouting-Rearranged rs)) (own_rule (prerouting rs) ds));
  other = λ network port h.
      find?-none_of_All (matches network port) (prerouting rs)
        (All-Rearranged (λ d. matches network port d ≡ false) (prerouting-Rearranged rs) h);
  back = postrouting-prerouting rs;
}
