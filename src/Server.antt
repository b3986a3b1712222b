-- ===== src/Server.antt =====
-- server.go: the STUN server that keeps the session table and advertises peers, and the HTTP
-- service that keeps the newest notification of each update. A handler returns the new state and
-- the datagrams that it tried to send, in order, or the error with which it ended; `delivers` tells
-- whether a datagram to an address is sent.
use p2p_update.Common.{
  ℕ, ◌+◌, ◌≡◌, Bool, true, false, not, ◌&&◌, ◌||◌, Option, none, some, List, [], ◌∷◌, ◌++◌, Text,
  if◌then◌else◌, ltb, length, ◌==◌, bytes_eq, Outcome, ok, err, panic, ◌>>=◌, require, in_range,
}
use p2p_update.Common.Dict.{Dict, lookup, insert}
use p2p_update.Stun.{
  Stun, UdpAddr, MessageType, method_binding, class_request, class_indication,
  class_success_response, same_method, same_class,
}
use p2p_update.Peer.{
  PeerId, zero_peer_id, PeerError, PortsError, TorrentPorts, Session, SessionTable, session_equal,
  Msgpack, Invalid, validate_message, peer_id_get_from, peer_id_add_to, torrent_ports_get_from,
  session_table_add_to,
}
use p2p_update.Notification.{Notification}
pub mod Sessions
pub mod Advertising
pub mod Panics
pub mod Updates
pub mod Versions
pub mod Database
pub mod Serving
pub mod Crashes
pub mod Unchanged
pub mod Running
pub mod History
pub mod Startup
mod Tests

pub record Server : Type 0 where
  pub id : PeerId
  pub stun_password : Text
  pub peers : SessionTable
  pub updates : Dict Text Notification
  pub last_modified : ℕ
  pub last_saved : ℕ

-- A datagram that the server writes: what is sent, and where.
pub record Datagram (M : Type 0) : Type 0 where
  pub message : M
  pub dest : UdpAddr

pub data ServerError : Type 0 where
  invalid_message : Invalid → ServerError
  not_binding : ServerError
  bad_peer_id : PeerError → ServerError
  no_internal_address : ServerError
  bad_torrent_ports : PortsError → ServerError
  unknown_addr : ServerError
  no_session : ServerError
  not_built : ServerError
  not_sent : ServerError

-- net.Addr: a UDP address, or another one.
pub data NetAddr : Type 0 where
  udp_addr : UdpAddr → NetAddr
  other_addr : NetAddr

unfoldable pub new_session : UdpAddr → UdpAddr → TorrentPorts → Session
new_session peer internal ports =
    peer
    ∷ internal
    ∷ record { ip = peer.ip; port = ports.external }
    ∷ record { ip = internal.ip; port = ports.internal }
    ∷ []

abbrev store_session : Server → PeerId → Session → Option Session → Server × Bool
store_session s pid session none = (record s { peers = insert pid session s.peers }, true)
store_session s pid session (some old) =
    if session_equal old session
    then (s, false)
    else (record s { peers = insert pid session s.peers }, true)

-- updateSessionTable: the new state, and whether the session was stored.
unfoldable pub update_session_table :
    Server → NetAddr → PeerId → UdpAddr → TorrentPorts → Outcome ServerError (Server × Bool)
unfolding new_session
update_session_table s (udp_addr peer) pid internal ports =
    ok (store_session s pid (new_session peer internal ports) (lookup pid s.peers))
update_session_table s other_addr pid internal ports = err unknown_addr

abbrev pub map_error : {A E F : Type 0} → (E → F) → Outcome E A → Outcome F A
map_error f (ok a) = ok a
map_error f (err e) = err (f e)
map_error f panic = panic

-- session[0]
abbrev pub external : Session → Option UdpAddr
external [] = none
external (a ∷ rest) = some a

module _ (st : Stun) (mp : Msgpack) (delivers : UdpAddr → Bool) where
  abbrev pub Sent : Type 0
  Sent = List (Datagram st.Message)

  abbrev pub binding_indication : MessageType
  binding_indication = record { method = method_binding; class = class_indication }

  -- The binding success response: its own session table is empty.
  unfoldable pub binding_success_message : Server → st.Message → UdpAddr → Option st.Message
  binding_success_message s req addr = st.build (
      st.set_transaction_id (st.transaction_id req)
      ∷ st.set_type (record { method = method_binding; class = class_success_response })
      ∷ st.set_xor_address addr
      ∷ peer_id_add_to st s.id
      ∷ session_table_add_to st mp []
      ∷ st.set_integrity s.stun_password
      ∷ st.set_fingerprint
      ∷ [])

  -- The indication that advertises one peer.
  abbrev advertisement_setters : Server → PeerId → Session → List (st.Message → Option st.Message)
  advertisement_setters s pid session =
      st.set_fresh_transaction_id
      ∷ st.set_type binding_indication
      ∷ peer_id_add_to st s.id
      ∷ session_table_add_to st mp ((pid, session) ∷ [])
      ∷ st.set_integrity s.stun_password
      ∷ st.set_fingerprint
      ∷ []

  unfoldable pub advertisement : Server → PeerId → Session → Option st.Message
  advertisement s pid session = st.build (advertisement_setters s pid session)

  unfoldable pub send_binding_success : Server → PeerId → st.Message → Outcome ServerError Sent
  send_binding_success s pid req = do
    session ← require no_session (lookup pid s.peers)
    addr ← in_range (external session)
    msg ← require not_built (binding_success_message s req addr)
    if delivers addr then ok (record { message = msg; dest = addr } ∷ []) else err not_sent

  -- The address that a peer is written to; a write that succeeds is logged with the first two
  -- addresses of both peers.
  abbrev pub advertised_to : Session → Session → Option UdpAddr
  advertised_to session paddrs = elim (external paddrs) [
    | none ↦ none
    | some a ↦
        if delivers a && not (ltb 1 (length session) && ltb 1 (length paddrs)) then none else some a
  ]

  -- The loop of `advertiseNewPeer`: one message for all the other peers; errors are only logged.
  unfoldable pub new_peer_loop :
      st.Message → PeerId → Session → SessionTable → Outcome ServerError Sent
  new_peer_loop msg pid session [] = ok []
  new_peer_loop msg pid session ((ppid, paddrs) ∷ ps) =
      let rest = new_peer_loop msg pid session ps in
      if ppid == pid then rest else (do
        addr ← in_range (advertised_to session paddrs)
        sent ← rest
        ok (record { message = msg; dest = addr } ∷ sent))

  -- A message that could not be built is logged with two addresses, and is written all the same, as
  -- far as it was built.
  unfoldable pub advertise_new_peer : Server → PeerId → Outcome ServerError Sent
  advertise_new_peer s pid = elim (lookup pid s.peers) [
    | none ↦ ok []
    | some session ↦ elim (advertisement s pid session) [
      | none ↦
          if ltb 1 (length session)
          then new_peer_loop (st.partly_built (advertisement_setters s pid session)) pid session
              s.peers
          else panic
      | some msg ↦ new_peer_loop msg pid session s.peers
    ]
  ]

  -- The loop of `advertiseSessionTableToPeer`: one message for each other peer.
  unfoldable pub table_loop : Server → PeerId → UdpAddr → SessionTable → Sent
  table_loop s dest addr [] = []
  table_loop s dest addr ((pid, sess) ∷ ps) =
      let rest = table_loop s dest addr ps in
      if pid == dest then rest else elim (advertisement s pid sess) [
        | none ↦ rest
        | some msg ↦ record { message = msg; dest = addr } ∷ rest
      ]

  unfoldable pub advertise_session_table_to_peer : Server → PeerId → Outcome ServerError Sent
  advertise_session_table_to_peer s dest = elim (lookup dest s.peers) [
    | none ↦ ok []
    | some addrs ↦ (do addr ← in_range (external addrs); ok (table_loop s dest addr s.peers))
  ]

  -- The loop of `advertiseSessionTable`, which a timer runs.
  unfoldable pub advertise_loop : Server → SessionTable → Outcome ServerError Sent
  advertise_loop s [] = ok []
  advertise_loop s ((pid, sess) ∷ ps) = do
    sent ← advertise_session_table_to_peer s pid
    more ← advertise_loop s ps
    ok (sent ++ more)

  unfoldable pub advertise_session_table : Server → Outcome ServerError Sent
  advertise_session_table s = advertise_loop s s.peers

  abbrev advertise_if : Bool → Server → PeerId → Outcome ServerError Sent
  advertise_if false s pid = ok []
  advertise_if true s pid = do
    to_others ← advertise_new_peer s pid
    to_peer ← advertise_session_table_to_peer s pid
    ok (to_others ++ to_peer)

  -- What follows the update of the table; the table stays updated also on an error.
  unfoldable pub answer_peer : Server → PeerId → st.Message → Bool → Outcome ServerError Sent
  answer_peer s pid req updated = do
    reply ← send_binding_success s pid req
    adverts ← advertise_if updated s pid
    ok (reply ++ adverts)

  -- A handler's new state, and its result.
  abbrev pub Handled : Type 0
  Handled = Server × Outcome ServerError Sent

  abbrev answer : Server → PeerId → st.Message → Outcome ServerError (Server × Bool) → Handled
  answer s pid req (ok (s', updated)) = (s', answer_peer s' pid req updated)
  answer s pid req (err e) = (s, err e)
  answer s pid req panic = (s, panic)

  abbrev read_request : st.Message → Outcome ServerError (PeerId × UdpAddr × TorrentPorts)
  read_request req = do
    pid ← map_error bad_peer_id (peer_id_get_from st zero_peer_id req)
    internal ← require no_internal_address (st.get_xor_address req)
    ports ← map_error bad_torrent_ports (torrent_ports_get_from st req)
    ok (pid, internal, ports)

  abbrev register_with :
      Server
      → NetAddr
      → st.Message
      → Outcome ServerError (PeerId × UdpAddr × TorrentPorts)
      → Handled
  register_with s addr req (ok (pid, internal, ports)) =
      answer s pid req (update_session_table s addr pid internal ports)
  register_with s addr req (err e) = (s, err e)
  register_with s addr req panic = (s, panic)

  unfoldable pub register_peer : Server → NetAddr → st.Message → Handled
  register_peer s addr req = register_with s addr req (read_request req)

  -- processMessage: only a valid binding request is answered.
  unfoldable pub process_message : Server → NetAddr → st.Message → Handled
  unfolding register_peer
  process_message s addr req = elim (validate_message st req none s.stun_password) [
    | some e ↦ (s, err (invalid_message e))
    | none ↦
        let t = st.message_type req in
        if same_method t.method method_binding && same_class t.class class_request
        then register_peer s addr req
        else (s, err not_binding)
  ]
