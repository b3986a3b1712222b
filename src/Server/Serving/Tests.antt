-- ===== src/Server/Serving/Tests.antt =====
-- Tests of Server/Serving.antt: short runs of the server.
use p2p_update.Common.{
  ◌≢◌, ◌≤◌, ◌≡◌, refl, true, false, none, some, [], ◌∷◌, arith, length, panic, bytes_eq,
}
use p2p_update.Notification.{verify}
use p2p_update.Stun.{Stun, attr_username, attr_even_port}
use p2p_update.Peer.{validate_message, peer_id_get_from, overwrite, uint32, torrent_ports_get_from}
use p2p_update.Server.{udp_addr}
use p2p_update.Server.Sessions.{IsServing}
use p2p_update.Server.Updates.{post_request, serve_http_request, save_failed, save_updates}
use p2p_update.Server.Serving.{
  Serving, serving, started, read_datagram, register, Reach, here, next, receive, take_job,
  crash_registering, http, snapshot,
}
use p2p_update.Server.Running.{Reach-IsServing, Reach-alive}
use p2p_update.Server.History.{Grows, IsStored, Reach-Grows, Reach-IsStored}
use p2p_update.Fixtures.{
  Packet, plain_stun, no_codec, peer_a, address, toy_crypto, shell_notification, empty_server,
  everywhere, short_request, empty_server-IsServing,
}

abbrev served : Serving plain_stun
served = record (serving plain_stun empty_server) {
  server =
      (serve_http_request toy_crypto 7 empty_server (post_request (some (shell_notification 4)))
        9).0;
}

-- A POST, and a snapshot which fails.
served_run :
    Reach plain_stun no_codec everywhere toy_crypto 7 (serving plain_stun empty_server) served
unfolding save_updates serve_http_request verify
served_run =
    next
      (next here (
        http (serving plain_stun empty_server) (post_request (some (shell_notification 4))) 9 refl))
      (snapshot served none (save_failed none) refl)

-- A library whose decoder reads the short request from every datagram.
abbrev decoding_stun : Stun
decoding_stun = record plain_stun { decode = λ b. some short_request }

abbrev asked : Serving decoding_stun
asked = record (serving decoding_stun empty_server) {
  workers = started (udp_addr (address 8 1)) short_request ∷ [];
  log = short_request ∷ [];
}

-- The short request is read, and a worker takes it.
asked_run :
    Reach decoding_stun no_codec everywhere toy_crypto 7 (serving decoding_stun empty_server) asked
unfolding read_datagram
asked_run =
    next
      (next here (
        receive (serving decoding_stun empty_server) [] (udp_addr (address 8 1)) short_request refl
          refl (omega arith)))
      (take_job _ (udp_addr (address 8 1)) short_request [] refl refl (omega arith))

register_panics :
    register decoding_stun no_codec everywhere empty_server (udp_addr (address 8 1)) short_request
    ≡ panic
unfolding register validate_message peer_id_get_from overwrite torrent_ports_get_from uint32
register_panics = refl

-- The process has panicked on the request.
abbrev panicked : Serving decoding_stun
panicked = record asked { crashed = true }

panicked_run :
    Reach decoding_stun no_codec everywhere toy_crypto 7
      (serving decoding_stun empty_server)
      panicked
panicked_run =
    next asked_run
      (crash_registering asked [] [] (udp_addr (address 8 1)) short_request refl register_panics)

Reach-IsServing_example :
    IsServing panicked.server × (length panicked.jobs ≤ 100) × (length panicked.workers ≤ 3)
Reach-IsServing_example =
    Reach-IsServing decoding_stun no_codec everywhere toy_crypto 7 empty_server panicked
      empty_server-IsServing panicked_run

-- A request whose torrent ports are long enough is read, and a worker takes it.
abbrev long_request : Packet
long_request = record short_request {
  attributes = (attr_username, peer_a) ∷ (attr_even_port, 1 ∷ 0 ∷ 0 ∷ 0 ∷ 2 ∷ 0 ∷ 0 ∷ 0 ∷ []) ∷ [];
}

abbrev clean_stun : Stun
clean_stun = record plain_stun { decode = λ b. some long_request }

abbrev taken : Serving clean_stun
taken = record (serving clean_stun empty_server) {
  workers = started (udp_addr (address 8 1)) long_request ∷ [];
  log = long_request ∷ [];
}

taken_run :
    Reach clean_stun no_codec everywhere toy_crypto 7 (serving clean_stun empty_server) taken
unfolding read_datagram
taken_run =
    next
      (next here (
        receive (serving clean_stun empty_server) [] (udp_addr (address 8 1)) long_request refl refl
          (omega arith)))
      (take_job _ (udp_addr (address 8 1)) long_request [] refl refl (omega arith))

long_request-ne-panic : torrent_ports_get_from clean_stun long_request ≢ panic
unfolding torrent_ports_get_from uint32
long_request-ne-panic e = cc

Reach-alive_example : taken.crashed ≡ false
Reach-alive_example =
    Reach-alive clean_stun no_codec everywhere toy_crypto 7 empty_server taken
      empty_server-IsServing taken_run (long_request-ne-panic, tt) refl

Reach-Grows_example : Grows empty_server served.server
Reach-Grows_example = Reach-Grows toy_crypto 7 plain_stun no_codec everywhere served_run

empty_server-IsStored : IsStored toy_crypto 7 empty_server
empty_server-IsStored = record { distinct = tt; keyed = λ k n e. cc; signed = λ k n e. cc }

served-IsStored : IsStored toy_crypto 7 served.server
served-IsStored =
    Reach-IsStored toy_crypto 7 plain_stun no_codec everywhere served_run empty_server-IsStored
