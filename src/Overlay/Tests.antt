-- ===== src/Overlay/Tests.antt =====
-- Tests of Overlay.antt.
use p2p_update.Common.{
  ℕ, ◌≡◌, ◌↔◌, refl, Bool, true, false, none, some, List, [], ◌∷◌, arith, eqb, length, ◌<◌, ◌+◌,
}
use p2p_update.Automata.{state_closed, state_opening, state_listening, event_open}
use p2p_update.Stun.{UdpAddr, attr_data}
use p2p_update.Overlay.{
  OverlayConn, OverlayConfig, Answers, new_overlay_conn, create_automata, peer_data_indication,
}
use p2p_update.Overlay.Machine.{Running, run, start_overlay}
use p2p_update.Automata.{destination}
use p2p_update.Overlay.Diagram.{Arrow, callback_of, machine_at, destination-Arrow_iff}
use p2p_update.Overlay.Progress.{IsCoherent, run-start_overlay}
use p2p_update.Overlay.Bounds.{IsBounded, start_overlay-IsBounded}
use p2p_update.Overlay.Io.{multicast_loop, logged_address, read_msg}
use p2p_update.Overlay.Channel.{
  Reach, here, indicated, message_read, changed, accepted, handed, IsFifo, Reach-queue,
}
use p2p_update.Overlay.Multicast.{multicast_loop-targets}
use p2p_update.Fixtures.{Packet, empty_packet, plain_stun, no_codec, peer_a, address, two_peers}

abbrev config : OverlayConfig
config = record {
  address = [];
  server = [];
  stun_password = [];
  binding_wait = 10;
  binding_max_errors = 3;
  listening_wait = 30;
  listening_max_errors = 5;
  listening_buffer_size = 65536;
  error_backoff = 10;
  channel_lifespan = 60;
  torrent_ports = record { external = 1; internal = 2 };
}

-- The socket opens; what follows is never answered.
abbrev silent : Answers plain_stun
silent = record {
  listens = true;
  client_made = true;
  deadline_set = true;
  request_built = true;
  request_started = true;
  response = none;
  received = none;
  now = 100;
}

abbrev failing : Answers plain_stun
failing = record silent { deadline_set = false }

abbrev three_steps : List (Answers plain_stun)
three_steps = silent ∷ silent ∷ silent ∷ []

abbrev after_three : Running plain_stun
after_three = run plain_stun no_codec three_steps (start_overlay plain_stun peer_a config)

run-start_overlay_example :
    IsCoherent plain_stun no_codec after_three
    × (after_three.pending ≡ some (callback_of after_three.overlay.automata.current))
run-start_overlay_example = run-start_overlay plain_stun no_codec peer_a config three_steps

start_overlay-IsBounded_example : IsBounded config after_three.overlay
start_overlay-IsBounded_example =
    start_overlay-IsBounded config plain_stun no_codec peer_a three_steps (omega arith)

destination-Arrow_iff_example :
    (destination create_automata.transitions state_closed event_open ≡ some state_opening)
    ↔ Arrow state_closed event_open state_opening
destination-Arrow_iff_example = destination-Arrow_iff state_closed state_opening event_open

-- A listening overlay that has counted no error.
abbrev fresh_conn : OverlayConn
fresh_conn = record (new_overlay_conn peer_a config) {
  automata = machine_at state_listening;
  err_count = 0;
  conn = true;
  stun = true;
  channel_expired = 50;
}

abbrev multicasting : OverlayConn
multicasting = record (new_overlay_conn (9 ∷ []) config) {
  external_addr = some (address 1 1);
  peers = two_peers;
}

abbrev only_to : ℕ → UdpAddr → Bool
only_to port a = eqb a.port port

multicast_loop-targets_example :
    multicast_loop (only_to 1) multicasting multicasting.peers false [] ≡ some (address 1 2 ∷ [])
unfolding new_overlay_conn logged_address
multicast_loop-targets_example =
    multicast_loop-targets (only_to 1) multicasting (address 1 2 ∷ address 2 1 ∷ []) refl

abbrev data_packet : Packet
data_packet = record empty_packet { attributes = (attr_data, 1 ∷ 2 ∷ []) ∷ [] }

abbrev opened_conn : OverlayConn
opened_conn = new_overlay_conn peer_a config

-- The channel holds a message, and the connection is listening.
abbrev filled_conn : OverlayConn
filled_conn = record opened_conn {
  automata = record opened_conn.automata { current = state_listening };
  peer_data = (1 ∷ 2 ∷ []) ∷ [];
}

-- A message arrives, and is read, and another arrives.
abbrev one_read : Reach plain_stun opened_conn (read_msg filled_conn false).0
unfolding peer_data_indication new_overlay_conn
one_read = message_read (changed (indicated here data_packet) filled_conn refl) false

Reach-queue_example :
    IsFifo plain_stun
      (accepted plain_stun one_read)
      (handed plain_stun one_read)
      (read_msg filled_conn false).0.peer_data
    × (((peer_data_indication plain_stun (read_msg filled_conn false).0 data_packet).1 ≡ true)
        ↔ (length (accepted plain_stun one_read) < length (handed plain_stun one_read) + 16))
unfolding new_overlay_conn
Reach-queue_example = Reach-queue plain_stun one_read data_packet refl refl
