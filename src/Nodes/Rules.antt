-- ===== src/Nodes/Rules.antt =====
-- The rules of the node registry: what no two nodes share, and what `validateUnique` makes of it.
use singbox_deploy.Common.{
  ℕ, Text, text_eq, ◌==◌, text_beq_iff, Bool, true, false, Option, none, some, List, [], ◌≡◌, ◌≢◌,
  sym, ap, ◌∙◌, inl, inr, arith, All, AllPairs, AllBut, AllBut-zip, AllBut-of_AllPairs,
  All-of_AllBut-none, get_elem?, check_others_iff, normalize, to_lower, trim_space, equal_fold,
  is_empty_iff, Bool-cases,
}
use singbox_deploy.Subgroups.Rules.{IsId}
use singbox_deploy.Nodes.{
  Node, Platform, same_ip, host_key, trim_brackets, alias_key, subscription_alias_key, same_name,
  same_domain, conflict, is_changed, validate_unique,
}

-- No empty key counts as shared.
abbrev pub Apart : Text → Text → Type 0
Apart a b = a ≢ [] → a ≢ b

-- No two nodes have the same ID, alias, subscription alias, SSH host or domain, in the sense in
-- which the code compares each.
pub record Distinct (os : Platform) (a b : Node) : Type 0 where
  pub ids : a.id ≢ b.id
  pub aliases : Apart (alias_key a) (alias_key b)
  pub subscription_aliases : Apart (subscription_alias_key a) (subscription_alias_key b)
  pub hosts : same_name os a.ssh_host b.ssh_host ≡ false
  pub domains : same_domain a.domain b.domain ≡ false

pub record IsNodes (os : Platform) (list : List Node) : Type 0 where
  pub sound : All (λ (n : Node). IsId n.id) list
  pub distinct : AllPairs (Distinct os) list

Apart-symm : (a b : Text) → Apart a b → Apart b a
Apart-symm a b h some_key e = h (λ z. some_key (e ∙ z)) (sym e)

beq_symm : (a b : Text) → (a == b) ≡ (b == a)
beq_symm a b = ground (arith, text_beq_iff a b, text_beq_iff b a)

equal_fold_symm : (a b : Text) → equal_fold a b ≡ equal_fold b a
unfolding equal_fold
equal_fold_symm a b = beq_symm (to_lower a) (to_lower b)

same_domain_symm : (a b : Text) → same_domain a b ≡ same_domain b a
unfolding same_domain
same_domain_symm a b = ground (arith, equal_fold_symm (host_key a) (host_key b))

same_ip_symm : (a b : Option Text) (x y : Bool) → x ≡ y → same_ip a b x ≡ same_ip b a y
same_ip_symm (some a) (some b) x y e = beq_symm a b
same_ip_symm (some a) none x y e = e
same_ip_symm none (some b) x y e = e
same_ip_symm none none x y e = e

same_name_symm : (os : Platform) (a b : Text) → same_name os a b ≡ same_name os b a
unfolding same_name
same_name_symm os a b =
    same_ip_symm (os.parse_ip (trim_brackets (host_key a)))
      (os.parse_ip (trim_brackets (host_key b))) _ _
      (ground (arith, equal_fold_symm (host_key a) (host_key b)))

pub Distinct-symm : (os : Platform) (a b : Node) → Distinct os a b → Distinct os b a
Distinct-symm os a b d = record {
  ids = λ e. d.ids (sym e);
  aliases = Apart-symm (alias_key a) (alias_key b) d.aliases;
  subscription_aliases =
      Apart-symm (subscription_alias_key a) (subscription_alias_key b) d.subscription_aliases;
  hosts = same_name_symm os b.ssh_host a.ssh_host ∙ d.hosts;
  domains = same_domain_symm b.domain a.domain ∙ d.domains;
}

-- What one round accepts; where an alias is not compared, it is apart already.
Distinct-of_conflict :
    (os : Platform) (check_alias check_subscription_alias : Bool) (n e : Node)
    → IsId n.id
    → IsId e.id
    → (check_alias ≡ false → Apart (alias_key e) (alias_key n))
    → (check_subscription_alias ≡ false
        → Apart (subscription_alias_key e) (subscription_alias_key n))
    → conflict os check_alias check_subscription_alias n e ≡ none
    → Distinct os e n
unfolding conflict equal_fold normalize
Distinct-of_conflict os a s n e n_id e_id alias_apart subscription_apart h = record {
  ids = λ same. ground (
    arith,
    n_id.1,
    is_empty_iff n.id,
    text_beq_iff (to_lower (trim_space n.id)) (to_lower (trim_space e.id)),
    ap (λ t. to_lower (trim_space t)) same,
  );
  aliases = elim (Bool-cases a) [
    | inl yes_checked ↦ λ some_key same.
        ground (arith, is_empty_iff (alias_key n), text_beq_iff (alias_key n) (alias_key e))
    | inr unchecked ↦ alias_apart unchecked
  ];
  subscription_aliases = elim (Bool-cases s) [
    | inl yes_checked ↦ λ some_key same. ground (
      arith,
      is_empty_iff (subscription_alias_key n),
      text_beq_iff (subscription_alias_key n) (subscription_alias_key e),
    )
    | inr unchecked ↦ subscription_apart unchecked
  ];
  hosts = same_name_symm os e.ssh_host n.ssh_host ∙ ground arith;
  domains = same_domain_symm e.domain n.domain ∙ ground arith;
}

-- A new node that is accepted is distinct from every node.
pub Distinct-of_add :
    (os : Platform) (list : List Node) (n : Node)
    → All (λ (e : Node). IsId e.id) list
    → IsId n.id
    → validate_unique os list n none ≡ none
    → All (λ e. Distinct os e n) list
unfolding validate_unique is_changed
Distinct-of_add os list n ids id h =
    let ok_all = (check_others_iff (conflict os true true n) none 0 list).0 h in
    All-of_AllBut-none (λ e. Distinct os e n) 0 list
      (AllBut-zip (λ e. conflict os true true n e ≡ none) (λ e. conflict os true true n e ≡ none)
        (λ (e : Node). IsId e.id) (λ e. Distinct os e n) none 0 list
        (λ e c c2 e_id.
          Distinct-of_conflict os true true n e id e_id (λ z. absurd (ground arith))
            (λ z. absurd (ground arith)) c)
        ok_all ok_all ids)

changed_false :
    (key : Node → Text) (old n e : Node)
    → is_changed key (some old) n ≡ false
    → Apart (key e) (key old)
    → Apart (key e) (key n)
unfolding is_changed
changed_false key old n e same h =
    let eq : key old ≡ key n = ground (arith, text_beq_iff (key old) (key n)) in rw (← eq) h

-- A replacement that is accepted is distinct from every node but the one that it replaces: an alias
-- that is not compared is the replaced node's own.
pub Distinct-of_replace :
    (os : Platform) (list : List Node) (n old : Node) (i : ℕ)
    → IsNodes os list
    → IsId n.id
    → get_elem? list i ≡ some old
    → validate_unique os list n (some i) ≡ none
    → AllBut (λ e. Distinct os e n) (some i) 0 list
unfolding validate_unique
Distinct-of_replace os list n old i reg id at h =
    let a = is_changed alias_key (some old) n in
    let s = is_changed subscription_alias_key (some old) n in
    let h' = rw at at h in
    AllBut-zip (λ e. conflict os a s n e ≡ none) (λ e. Distinct os e old) (λ (e : Node). IsId e.id)
      (λ e. Distinct os e n) (some i) 0 list
      (λ e c d e_id.
        Distinct-of_conflict os a s n e id e_id (λ z. changed_false alias_key old n e z d.aliases)
          (λ z. changed_false subscription_alias_key old n e z d.subscription_aliases) c)
      ((check_others_iff (conflict os a s n) (some i) 0 list).0 h')
      (AllBut-of_AllPairs (Distinct os) (Distinct-symm os) list i old reg.distinct at) reg.sound
