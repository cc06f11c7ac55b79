-- ===== src/Nodes/Stored.antt =====
-- The node registry on disk: what a node's entry keeps, and the rules over any run of transactions.
use singbox_deploy.Common.{
  Text, List, [], ◌∷◌, map, ◌≡◌, refl, sym, ap, ◌∙◌, All, trim_space, trim_space_idem,
  trim_space-normalize,
}
use singbox_deploy.State.Entries.{Disk}
use singbox_deploy.State.Entries.Runs.{loaded, Reach, Reach-keeps}
use singbox_deploy.Subgroups.Rules.{IsId}
use singbox_deploy.Nodes.{
  Node, Platform, effective_alias, effective_subscription_alias, alias_key, subscription_alias_key,
  same_name, same_domain,
}
use singbox_deploy.Nodes.Codec.{decode_node, encode_node}
use singbox_deploy.Nodes.RoundTrip.{
  reload, reload_id, reload_alias, reload_subscription_alias, reload_ssh_host, reload_domain,
}
use singbox_deploy.Nodes.Rules.{IsNodes, Distinct}
use singbox_deploy.Nodes.Registry.{apply, apply-IsNodes}

-- A node that came back: the same ID, and the compared texts up to outer spaces.
record IsTrimmed (a n : Node) : Type 0 where
  id : a.id ≡ n.id
  alias : a.alias ≡ trim_space n.alias
  subscription_alias : a.subscription_alias ≡ trim_space n.subscription_alias
  ssh_host : a.ssh_host ≡ trim_space n.ssh_host
  domain : a.domain ≡ trim_space n.domain

reload-IsTrimmed : (os : Platform) (n : Node) → IsId n.id → IsTrimmed (reload os.clock n) n
reload-IsTrimmed os n h = record {
  id = reload_id os.clock n ∙ ap trim_space (sym h.0) ∙ trim_space-normalize n.id ∙ h.0;
  alias = reload_alias os.clock n;
  subscription_alias = reload_subscription_alias os.clock n;
  ssh_host = reload_ssh_host os.clock n;
  domain = reload_domain os.clock n;
}

effective_alias-IsTrimmed : (a n : Node) → IsTrimmed a n → effective_alias a ≡ effective_alias n
unfolding effective_alias
effective_alias-IsTrimmed a n t =
    rw
      (
        t.alias,
        t.domain,
        t.ssh_host,
        trim_space_idem n.alias,
        trim_space_idem n.domain,
        trim_space_idem n.ssh_host,
      )
      refl

alias_key-IsTrimmed : (a n : Node) → IsTrimmed a n → alias_key a ≡ alias_key n
unfolding alias_key
alias_key-IsTrimmed a n t = rw (effective_alias-IsTrimmed a n t) refl

subscription_alias_key-IsTrimmed :
    (a n : Node) → IsTrimmed a n → subscription_alias_key a ≡ subscription_alias_key n
unfolding subscription_alias_key effective_subscription_alias
subscription_alias_key-IsTrimmed a n t =
    rw (effective_alias-IsTrimmed a n t, t.subscription_alias, trim_space_idem n.subscription_alias)
      refl

same_name-trim :
    (os : Platform) (s t : Text) → same_name os (trim_space s) (trim_space t) ≡ same_name os s t
unfolding same_name
same_name-trim os s t = rw (trim_space_idem s, trim_space_idem t) refl

same_domain-trim : (s t : Text) → same_domain (trim_space s) (trim_space t) ≡ same_domain s t
unfolding same_domain
same_domain-trim s t = rw (trim_space_idem s, trim_space_idem t) refl

Distinct-IsTrimmed :
    (os : Platform) (a n b m : Node)
    → IsTrimmed a n
    → IsTrimmed b m
    → Distinct os n m
    → Distinct os a b
Distinct-IsTrimmed os a n b m s t d = record {
  ids = λ e. d.ids (sym s.id ∙ e ∙ t.id);
  aliases = rw (alias_key-IsTrimmed a n s, alias_key-IsTrimmed b m t) d.aliases;
  subscription_aliases =
      rw (subscription_alias_key-IsTrimmed a n s, subscription_alias_key-IsTrimmed b m t)
        d.subscription_aliases;
  hosts = rw (s.ssh_host, t.ssh_host) (same_name-trim os n.ssh_host m.ssh_host ∙ d.hosts);
  domains = rw (s.domain, t.domain) (same_domain-trim n.domain m.domain ∙ d.domains);
}

All-Distinct-reload :
    (os : Platform) (n : Node) (list : List Node)
    → IsId n.id
    → All (λ (x : Node). IsId x.id) list
    → All (Distinct os n) list
    → All (Distinct os (reload os.clock n)) (map (reload os.clock) list)
All-Distinct-reload os n [] id ids h = tt
All-Distinct-reload os n (m ∷ ms) id ids h = (
  Distinct-IsTrimmed os (reload os.clock n) n (reload os.clock m) m (reload-IsTrimmed os n id)
      (reload-IsTrimmed os m ids.0) h.0,
  All-Distinct-reload os n ms id ids.1 h.1,
)

IsNodes-reload :
    (os : Platform) (list : List Node) → IsNodes os list → IsNodes os (map (reload os.clock) list)
IsNodes-reload os [] h = record { sound = tt; distinct = tt }
IsNodes-reload os (n ∷ ns) h =
    let rest = IsNodes-reload os ns (record { sound = h.sound.1; distinct = h.distinct.1 }) in
    let t = reload-IsTrimmed os n h.sound.0 in
    record {
      sound = (rw t.id h.sound.0, rest.sound);
      distinct = (All-Distinct-reload os n ns h.sound.0 h.sound.1 h.distinct.0, rest.distinct);
    }

-- From a disk on which every node has an ID and no two share an ID, an alias, a subscription alias,
-- an SSH host or a domain as the code compares them, any run of `Add`, `Update`, `Mutate`, `Remove`,
-- `Reorder` and rewrites of `Load` in which the reads of the field files succeed, whatever other call
-- fails, and each of which leaves at most 999 nodes, ends in a disk of which the same holds.
pub Reach-IsNodes :
    {d e : Disk} (os : Platform)
    → IsNodes os (loaded (decode_node os.clock) (encode_node os.clock) (apply os) d)
    → Reach (decode_node os.clock) (encode_node os.clock) (apply os) d e
    → IsNodes os (loaded (decode_node os.clock) (encode_node os.clock) (apply os) e)
Reach-IsNodes os h r =
    Reach-keeps (decode_node os.clock) (encode_node os.clock) (apply os) (IsNodes os)
      (record { sound = tt; distinct = tt }) (IsNodes-reload os) (apply-IsNodes os) h r
