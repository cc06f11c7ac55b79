-- ===== src/Relay/Tests.antt =====
-- The relay data plane on concrete jobs.
use singbox_deploy.Common.{
  Text, codes, to_lower, lower_rune, text_eq, ◌==◌, if◌then◌else◌, trim_space, contains, text_beq,
  find?, itoa, ◌≢◌, true, false, Option, none, some, List, [], ◌∷◌, ◌≡◌, refl, pos, arith,
}
use singbox_deploy.Monitor.Enforce.{Call}
use singbox_deploy.Relay.{
  Forward, Landing, Config, ConfigError, forwards_nothing, display_name, socket, check_socket,
  claim_sockets, check_landing, check_landings, validate_config,
}
use singbox_deploy.Relay.Validity.{IsConfig, validate_config_iff}
use singbox_deploy.Relay.Rules.{
  int_ltb, text_ltb, listens_before, insert_forward, sorted_forwards, dnat_of, prerouting,
}
use singbox_deploy.Relay.Dispatch.{dispatch}
use singbox_deploy.Relay.Firewall.{Firewall, Command, route_to, forward_routes, previous_routes}
use singbox_deploy.Relay.Applier.{World, Host, Stored, landing_address}
use singbox_deploy.Relay.Apply.{Op, apply_job, run_ops}
use singbox_deploy.Relay.Remembered.{Remembered, run_ops-Remembered}
use singbox_deploy.Relay.Installed.{Relaying, apply_job-Relaying}
use singbox_deploy.Relay.Quota.{QuotaWorld, quota_stop, quota_start-quota_stop}
use singbox_deploy.Relay.Readers.{
  landing_forwards, all_forwards, metered_before, insert_metered, sorted_metered, ping_target_id,
  join_probe_port, landing_targets,
}
use singbox_deploy.Relay.Works.{Works, AllResolve, apply_job-Works}

abbrev https : Forward
https = record {
  protocol = codes "anytls";
  network = codes "tcp";
  listen_port = pos 20443;
  target_port = pos 443;
}

abbrev quic : Forward
quic = record {
  protocol = codes "tuic";
  network = codes "udp";
  listen_port = pos 20443;
  target_port = pos 8443;
}

abbrev grpc : Forward
grpc = record {
  protocol = codes "vless-reality-grpc";
  network = codes "tcp";
  listen_port = pos 20001;
  target_port = pos 2053;
}

abbrev tokyo : Landing
tokyo = record {
  node_id = codes "a1";
  name = codes "Tokyo";
  host = codes "tokyo.example.com";
  address = [];
  forwards = https ∷ quic ∷ [];
}

abbrev paris : Landing
paris = record {
  node_id = codes "b2";
  name = [];
  host = codes "paris.example.com";
  address = codes " 192.0.2.7 ";
  forwards = grpc ∷ [];
}

abbrev both : Config
both = record { landings = tokyo ∷ paris ∷ [] }

-- The same socket for two landing nodes.
abbrev clash : Config
clash = record { landings = tokyo ∷ record paris { forwards = https ∷ [] } ∷ [] }

abbrev works : Call
works = record { succeeds = true; leaves = true }

abbrev refuses : Call
refuses = record { succeeds = false; leaves = false }

-- The resolver knows one name.
abbrev lookup : Text → Option Text
lookup name = if name == codes "tokyo.example.com" then some (codes "198.51.100.4") else none

abbrev host : Host
host = record {
  firewall = Firewall.ufw;
  resolve = lookup;
  is_ipv4 = λ (s : Text). true;
  runs = λ (c : Command). true;
  nft = works;
  readable = true;
  save = works;
  render = true;
  stat = true;
  write_unit = works;
  remove_unit = works;
}

abbrev unused : World
unused = record { stored = Stored.absent; rules = none; has_unit = false; commands = [] }

both-accepted : validate_config both ≡ none
unfolding validate_config check_landings check_landing claim_sockets check_socket socket
    display_name trim_space contains text_beq find? itoa
both-accepted = refl

clash-refused :
    validate_config clash
    ≡ some (ConfigError.claimed_by_both https (codes "Tokyo") (codes "paris.example.com"))
unfolding validate_config check_landings check_landing claim_sockets check_socket socket
    display_name trim_space contains text_beq find? itoa
clash-refused = refl

both_forward : forwards_nothing both.landings ≡ false
unfolding forwards_nothing
both_forward = refl

validate_config_iff_example : IsConfig both
validate_config_iff_example = (validate_config_iff both).0 both-accepted

-- `paris` falls back to the recorded address.
paris-address : landing_address host paris ≡ some (codes "192.0.2.7")
unfolding landing_address text_beq trim_space
paris-address = refl

tokyo-address : landing_address host tokyo ≡ some (codes "198.51.100.4")
unfolding landing_address text_beq trim_space
tokyo-address = refl

host-Works : Works host
host-Works = record {
  runs = λ c. refl;
  nft = refl;
  readable = refl;
  save = refl;
  render = refl;
  write_unit = refl;
}

both-AllResolve : AllResolve host both.landings
both-AllResolve = ((codes "198.51.100.4", tokyo-address), ((codes "192.0.2.7", paris-address), tt))

-- The udp mapping of the shared port number goes to its own target.
quic-dispatch :
    dispatch
      (prerouting (
        record { landing = tokyo; ip = codes "198.51.100.4" }
        ∷ record { landing = paris; ip = codes "192.0.2.7" }
        ∷ []))
      (codes "udp")
      (pos 20443)
    ≡ some (record {
      network = codes "udp";
      listen_port = pos 20443;
      address = codes "198.51.100.4";
      target_port = pos 8443;
    })
unfolding prerouting sorted_forwards insert_forward listens_before int_ltb text_ltb dnat_of find?
    text_beq
quic-dispatch = refl

-- A route that was granted to a resolved address is not among those that are withdrawn.
granted-route :
    forward_routes (record { landing = tokyo; ip = codes "198.51.100.4" } ∷ [])
    ≡ route_to (codes "198.51.100.4") https ∷ route_to (codes "198.51.100.4") quic ∷ []
unfolding forward_routes sorted_forwards insert_forward listens_before int_ltb text_ltb text_beq
granted-route = refl

tokyo-not_withdrawn : previous_routes (tokyo ∷ []) ≡ []
unfolding previous_routes trim_space
tokyo-not_withdrawn = refl

parsed : unused.stored ≢ Stored.unparsable
parsed e = absurd (ground arith)

apply_job-Works_example : (apply_job host both unused).0 ≡ []
apply_job-Works_example =
    apply_job-Works host host-Works both unused both_forward both-accepted both-AllResolve parsed

apply_job-Relaying_example : Relaying host both ((apply_job host both unused).1)
apply_job-Relaying_example =
    apply_job-Relaying host both unused both_forward (
      apply_job-Works host host-Works both unused both_forward both-accepted both-AllResolve parsed)

abbrev relaying : World
relaying = record unused { stored = Stored.job both; has_unit = true }

-- A job is stored, nft fails, the node is suspended, and the job is withdrawn.
abbrev steps : List (Host × Op)
steps =
    (record host { nft = refuses }, Op.apply both)
    ∷ (host, Op.suspend)
    ∷ (host, Op.resume)
    ∷ (record host { save = refuses }, Op.clear)
    ∷ []

run_ops-Remembered_example : Remembered (run_ops steps unused)
run_ops-Remembered_example = run_ops-Remembered steps unused (Remembered.idle unused refl refl)

abbrev running : QuotaWorld
running = record {
  service = record { active = true; marker = false; memory = false };
  relay = relaying;
}

quota_start-quota_stop_example : (quota_stop true host works running).0 ≡ true
quota_start-quota_stop_example =
    (quota_start-quota_stop host host-Works both works running refl both_forward both-accepted
      both-AllResolve refl).0

-- The monitor meters the mappings in the order of their ports.
metered-order :
    sorted_metered (all_forwards both.landings)
    ≡ record {
      listen_port = pos 20001;
      landing_id = codes "b2";
      landing_name = codes "paris.example.com";
    }
      ∷ record { listen_port = pos 20443; landing_id = codes "a1"; landing_name = codes "Tokyo" }
      ∷ record { listen_port = pos 20443; landing_id = codes "a1"; landing_name = codes "Tokyo" }
      ∷ []
unfolding sorted_metered all_forwards landing_forwards insert_metered metered_before int_ltb
    text_ltb display_name trim_space text_beq
metered-order = refl

probed :
    landing_targets (tokyo ∷ [])
    ≡ record {
      id = codes "relay:a1";
      kind = codes "relay";
      name = codes "Tokyo";
      address = codes "tokyo.example.com:443";
    }
      ∷ []
unfolding landing_targets ping_target_id join_probe_port display_name trim_space to_lower lower_rune
    contains
probed = refl
