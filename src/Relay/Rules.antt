-- ===== src/Relay/Rules.antt =====
-- internal/relay/relay.go: the nftables program that forwards, as its rules and as its text. The
-- order of `sort.Slice` is that of an insertion sort: two mappings that it finds equal listen on
-- the same socket, which `Validate` refuses.
use singbox_deploy.Common.{
  Text, codes, text_eq, ◌==◌, Bool, true, false, not, List, [], ◌∷◌, ◌++◌, map, if◌then◌else◌, ℤ,
  pos, negsuc, int_eq, nat_eq, ltb, itoa,
}
use singbox_deploy.Relay.{Forward, Landing}

unfoldable pub int_ltb : ℤ → ℤ → Bool
int_ltb (pos a) (pos b) = ltb a b
int_ltb (pos a) (negsuc b) = false
int_ltb (negsuc a) (pos b) = true
int_ltb (negsuc a) (negsuc b) = ltb b a

-- `<` on strings
unfoldable pub text_ltb : Text → Text → Bool
text_ltb [] [] = false
text_ltb [] (d ∷ t) = true
text_ltb (c ∷ s) [] = false
text_ltb (c ∷ s) (d ∷ t) = let rest = text_ltb s t in if c == d then rest else ltb c d

unfoldable pub listens_before : Forward → Forward → Bool
listens_before f g =
    if not (f.listen_port == g.listen_port)
    then int_ltb f.listen_port g.listen_port
    else text_ltb f.network g.network

unfoldable pub insert_forward : Forward → List Forward → List Forward
insert_forward f [] = f ∷ []
insert_forward f (g ∷ gs) =
    let rest = insert_forward f gs in if listens_before g f then g ∷ rest else f ∷ g ∷ gs

unfoldable pub sorted_forwards : List Forward → List Forward
sorted_forwards [] = []
sorted_forwards (f ∷ fs) = insert_forward f (sorted_forwards fs)

pub record ResolvedLanding : Type 0 where
  pub landing : Landing
  pub ip : Text

-- `<network> dport <listen_port> dnat to <address>:<target_port>`
pub record Dnat : Type 0 where
  pub network : Text
  pub listen_port : ℤ
  pub address : Text
  pub target_port : ℤ

-- `ip daddr <address> <network> dport <target_port> masquerade`
pub record Masquerade : Type 0 where
  pub address : Text
  pub network : Text
  pub target_port : ℤ

unfoldable pub dnat_of : Text → Forward → Dnat
dnat_of ip f = record {
  network = f.network;
  listen_port = f.listen_port;
  address = ip;
  target_port = f.target_port;
}

unfoldable pub masquerade_of : Text → Forward → Masquerade
masquerade_of ip f = record { address = ip; network = f.network; target_port = f.target_port }

-- The loop over the landing nodes in the chain `prerouting`, and that in `postrouting`.
unfoldable pub prerouting : List ResolvedLanding → List Dnat
prerouting [] = []
prerouting (r ∷ rs) = map (dnat_of r.ip) (sorted_forwards r.landing.forwards) ++ prerouting rs

unfoldable pub postrouting : List ResolvedLanding → List Masquerade
postrouting [] = []
postrouting (r ∷ rs) =
    map (masquerade_of r.ip) (sorted_forwards r.landing.forwards) ++ postrouting rs

unfoldable pub dnat_line : Dnat → Text
dnat_line d =
    codes "\t\t"
    ++ d.network
    ++ codes " dport "
    ++ itoa d.listen_port
    ++ codes " dnat to "
    ++ d.address
    ++ codes ":"
    ++ itoa d.target_port
    ++ codes "\n"

unfoldable pub masquerade_line : Masquerade → Text
masquerade_line m =
    codes "\t\tip daddr "
    ++ m.address
    ++ codes " "
    ++ m.network
    ++ codes " dport "
    ++ itoa m.target_port
    ++ codes " masquerade\n"

abbrev concat : List Text → Text
concat [] = []
concat (t ∷ ts) = t ++ concat ts

abbrev pub table : Text
table = codes "singbox_deploy_relay"

unfoldable pub render_ruleset : List ResolvedLanding → Text
render_ruleset landings =
    codes "table ip "
    ++ table
    ++ codes " {}\n"
    ++ codes "delete table ip "
    ++ table
    ++ codes "\n\n"
    ++ codes "table ip "
    ++ table
    ++ codes " {\n"
    ++ codes "\tchain prerouting {\n"
    ++ codes "\t\ttype nat hook prerouting priority dstnat; policy accept;\n"
    ++ concat (map dnat_line (prerouting landings))
    ++ codes "\t}\n\n"
    ++ codes "\tchain postrouting {\n"
    ++ codes "\t\ttype nat hook postrouting priority srcnat; policy accept;\n"
    ++ concat (map masquerade_line (postrouting landings))
    ++ codes "\t}\n"
    ++ codes "}\n"
