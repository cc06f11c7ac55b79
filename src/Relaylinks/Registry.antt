-- ===== src/Relaylinks/Registry.antt =====
-- The rules of the registry of relay links, kept by every operation.
use singbox_deploy.Common.{
  Text, none, some, List, [], ◌∷◌, ◌++◌, ◌≡◌, ◌≢◌, refl, sym, inl, inr, arith, Bool, not, ◌&&◌,
  text_eq, ◌==◌, All, AllPairs, AllPairs-append, AllPairs-set, AllPairs-select, AllPairs-remove_at,
  All-of_AllBut-none, All-append, All-map, All-set, All-select, All-remove_at, All-swap, ok,
  Option-cases, Bool-cases, normalize, normalize_idem, set, remove_at, select, is_empty,
}
use singbox_deploy.Relaylinks.{
  Forward, Link, normalized, index_of, set_link, remove_link, drop_loop, seen_after, drop_node,
}
use singbox_deploy.Relaylinks.Validity.{IsLink, Compatible, Disjoint}
use singbox_deploy.Relaylinks.Validate.{validate_iff}

-- The IDs are stored in their normal form.
abbrev pub IsNormal : Link → Type 0
IsNormal l = (normalize l.landing_id ≡ l.landing_id) × (normalize l.relay_id ≡ l.relay_id)

-- Each link is sound and normal, and every two are compatible: no landing node has two relays, no
-- relay is itself relayed, and no two links claim one port of a relay.
pub record IsRegistry (list : List Link) : Type 0 where
  pub sound : All IsLink list
  pub normal : All IsNormal list
  pub compatible : AllPairs Compatible list

Disjoint-symm : (fs gs : List Forward) → Disjoint fs gs → Disjoint gs fs
Disjoint-symm fs gs h =
    All-map _ (λ (g : Forward). All (λ (f : Forward). f.relay_port ≢ g.relay_port) fs)
      (λ g a. All-map (λ (f : Forward). g.relay_port ≢ f.relay_port) _ (λ f n e. n (sym e)) fs a) gs
      (All-swap (λ (f g : Forward). g.relay_port ≢ f.relay_port) fs gs h)

pub Compatible-symm : (a b : Link) → Compatible a b → Compatible b a
Compatible-symm a b c = record {
  landings = λ e. c.landings (sym e);
  no_chain = λ e. c.no_chain_back (sym e);
  no_chain_back = λ e. c.no_chain (sym e);
  sockets = λ e. Disjoint-symm a.forwards b.forwards (c.sockets (sym e));
}

normalized-IsNormal : (l : Link) → IsNormal (normalized l)
unfolding normalized
normalized-IsNormal l = (normalize_idem l.landing_id, normalize_idem l.relay_id)

-- What `Set` stores keeps the rules, whether it appends the link or replaces an entry.
pub set_link-IsRegistry :
    (given : Link) (list : List Link) {next : List Link}
    → set_link given list ≡ ok next
    → IsRegistry list
    → IsRegistry next
unfolding set_link
set_link-IsRegistry given list {next} h reg =
    let link = normalized given in
    elim (Option-cases (index_of list link.landing_id)) [
      | inl new ↦
          let stored : list ++ link ∷ [] ≡ next = ground arith in
          let (sound, others) = (validate_iff list link none).0 (ground arith) in
          rw (← stored) (record {
            sound = All-append IsLink list (link ∷ []) reg.sound (sound, tt);
            normal =
                All-append IsNormal list (link ∷ []) reg.normal (normalized-IsNormal given, tt);
            compatible =
                AllPairs-append Compatible list link reg.compatible
                  (All-of_AllBut-none (λ e. Compatible e link) 0 list others);
          })
      | inr (i, old) ↦
          let stored : set list i link ≡ next = ground arith in
          let (sound, others) = (validate_iff list link (some i)).0 (ground arith) in
          rw (← stored) (record {
            sound = All-set IsLink list i link reg.sound sound;
            normal = All-set IsNormal list i link reg.normal (normalized-IsNormal given);
            compatible = AllPairs-set Compatible Compatible-symm list i link reg.compatible others;
          })
    ]

-- Removing a link keeps the rules.
pub remove_link-IsRegistry :
    (landing_id : Text) (list : List Link) {next : List Link}
    → remove_link landing_id list ≡ ok next
    → IsRegistry list
    → IsRegistry next
unfolding remove_link
remove_link-IsRegistry landing_id list {next} h reg =
    elim (Option-cases (index_of list (normalize landing_id))) [
      | inl absent ↦ let stored : list ≡ next = ground arith in rw (← stored) reg
      | inr (i, found) ↦
          let stored : remove_at list i ≡ next = ground arith in
          rw (← stored) (record {
            sound = All-remove_at IsLink list i reg.sound;
            normal = All-remove_at IsNormal list i reg.normal;
            compatible = AllPairs-remove_at Compatible list i reg.compatible;
          })
    ]

-- The link names the node on neither side.
abbrev pub spares : Text → Link → Bool
spares node l = not (l.landing_id == node) && not (l.relay_id == node)

-- The links that the loop of `DropNode` keeps, whatever it has seen.
pub drop_loop-select :
    (node : Text) (seen : List Text) (list : List Link)
    → (drop_loop node seen list).1 ≡ select (spares node) list
unfolding drop_loop select
drop_loop-select node seen [] = refl
drop_loop-select node seen (l ∷ ls) =
    ground (arith, drop_loop-select node (seen_after node seen l) ls)

-- Dropping a node keeps the rules.
pub drop_node-IsRegistry :
    (node_id : Text) (list : List Link) → IsRegistry list → IsRegistry (drop_node node_id list).1
unfolding drop_node
drop_node-IsRegistry node_id list reg = elim (Bool-cases (is_empty (normalize node_id))) [
  | inl e ↦ rw e reg
  | inr e ↦
      let node = normalize node_id in
      rw (e, drop_loop-select node [] list)
        (record {
          sound = All-select IsLink (spares node) list reg.sound;
          normal = All-select IsNormal (spares node) list reg.normal;
          compatible = AllPairs-select Compatible (spares node) list reg.compatible;
        })
]
