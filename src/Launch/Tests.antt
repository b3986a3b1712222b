-- ===== src/Launch/Tests.antt =====
-- Tests of Launch.antt.
use p2p_update.Common.{◌≡◌, ◌↔◌, refl, true, none, some, [], ◌∷◌, codes, Outcome, ok}
use p2p_update.Agent.Trust.{IsSound}
use p2p_update.Config.{Config, default_config}
use p2p_update.Launch.{
  Machine, Launched, LaunchError, new_agent, create_dirs, choose_address, new_overlay,
}
use p2p_update.Local.{ipv4_of_interface, local_ipv4, local_peer_id, active_mac_address}
use p2p_update.Serial.{raspberry_pi_serial}
use p2p_update.Peer.{overwrite}
use p2p_update.Launch.Starting.{HasClient, new_agent-starts}
use p2p_update.Fixtures.{toy_crypto, toy_host, plain_stun, empty_agent, shell_update}

-- A machine where everything succeeds, with a file of an earlier run.
abbrev machine : Machine toy_crypto
machine = record {
  net = record { parse_cidr = λ a. some a; is_ipv4 = λ ip. true; dials = λ ip. true };
  interfaces = some (
      record {
        name = codes "eth0";
        up = true;
        hardware_addr = 1 ∷ 2 ∷ 3 ∷ 4 ∷ 5 ∷ 6 ∷ [];
        addrs = some (codes "1" ∷ []);
      }
      ∷ []);
  interface_named = λ name. none;
  cpuinfo = none;
  ip_text = λ ip. ip;
  resolves = λ name. true;
  resolves_ip = λ name. true;
  make_dir = λ dir. true;
  new_client = λ cfg. true;
  builds_keep_alive = λ cfg. true;
  load_public_key = λ name. some 7;
  metadata_files = λ dir. some (shell_update 3) ∷ none ∷ [];
  draw = λ n. 5;
  gateways = [];
}

abbrev the_config : Config
the_config = default_config none

abbrev or_blank :
    Outcome LaunchError (Launched plain_stun toy_crypto) → Launched plain_stun toy_crypto
or_blank (ok l) = l
or_blank _ = record { config = the_config; agent = empty_agent; overlay = none; public_key = 0 }

abbrev started : Launched plain_stun toy_crypto
started = or_blank (new_agent plain_stun toy_host toy_crypto machine empty_agent the_config)

started_it : new_agent plain_stun toy_host toy_crypto machine empty_agent the_config ≡ ok started
unfolding new_agent create_dirs choose_address default_config ipv4_of_interface local_ipv4
    new_overlay local_peer_id raspberry_pi_serial active_mac_address overwrite
started_it = refl

new_agent-starts_example :
    (some 7 ≡ some started.public_key)
    × IsSound toy_host toy_crypto started.public_key started.agent
    × ((started.overlay ≡ none) ↔ (the_config.no_udp ≡ true))
    × HasClient plain_stun toy_host toy_crypto machine started.config
new_agent-starts_example =
    new_agent-starts plain_stun toy_host toy_crypto machine empty_agent the_config started
      started_it
