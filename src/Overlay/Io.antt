-- ===== src/Overlay/Io.antt =====
-- Reading from and writing to the overlay (overlaysock.go): Ready, ReadMsg, Read, Write,
-- multicastMessage, the keep-alive packets, Close and the deadlines.
use p2p_update.Common.{
  ℕ, ◌*◌, Bool, true, false, not, ◌&&◌, Option, none, some, List, [], ◌∷◌, ◌++◌, if◌then◌else◌, ltb,
  eqb, length, take, drop, ◌==◌, bytes_eq,
}
use p2p_update.Automata.{
  State, state_listening, state_processing_message, state_message_error, event_close,
}
use p2p_update.Stun.{Stun, UdpAddr, method_data, class_indication}
use p2p_update.Peer.{Session, SessionTable, peer_id_add_to, peer_message_add_to}
use p2p_update.Overlay.{OverlayConn}
use p2p_update.Overlay.Machine.{Running, raise_event}

abbrev pub stun_max_packet_data_size : ℕ
stun_max_packet_data_size = 56 * 1024

abbrev pub is_ready_state : State → Bool
is_ready_state state_listening = true
is_ready_state state_processing_message = true
is_ready_state state_message_error = true
is_ready_state _ = false

unfoldable pub ready : OverlayConn → Bool
ready o = is_ready_state o.automata.current

-- How a read ends. `waits` is a receive that blocks; `fits` tells whether the whole message went
-- into the buffer.
pub data ReadReply : Type 0 where
  got : List ℕ → ReadReply
  cut : List ℕ → ReadReply
  no_buffer not_ready waits : ReadReply

-- A receive from the channel against the timer of the read deadline, if there is one. `late` tells
-- that the timer is chosen although data is there.
pub data Received : Type 0 where
  data_received : List ℕ → List (List ℕ) → Received
  timed_out blocked : Received

abbrev pub receive : Option ℕ → Bool → List (List ℕ) → Received
receive none late [] = blocked
receive none late (m ∷ ms) = data_received m ms
receive (some t) late [] = timed_out
receive (some t) late (m ∷ ms) = if late then timed_out else data_received m ms

abbrev reply_msg : OverlayConn → Received → OverlayConn × ReadReply
reply_msg o (data_received m ms) = (record o { peer_data = ms }, got m)
reply_msg o timed_out = (o, not_ready)
reply_msg o blocked = (o, waits)

unfoldable pub read_msg : OverlayConn → Bool → OverlayConn × ReadReply
unfolding ready
read_msg o late =
    if not (ready o) then (o, not_ready) else reply_msg o (receive o.read_deadline late o.peer_data)

-- copy(b, data), with an error if the data does not fit.
abbrev copy_to : ℕ → List ℕ → ReadReply
copy_to size m = if ltb size (length m) then cut (take size m) else got m

-- After the timer, `data` is nil: nothing is copied, and there is no error.
abbrev reply_read : OverlayConn → ℕ → Received → OverlayConn × ReadReply
reply_read o size (data_received m ms) = (record o { peer_data = ms }, copy_to size m)
reply_read o size timed_out = (o, copy_to size [])
reply_read o size blocked = (o, waits)

-- Read, into a buffer of `size` bytes.
unfoldable pub read : OverlayConn → ℕ → Bool → OverlayConn × ReadReply
unfolding ready
read o size late =
    if eqb size 0
    then (o, no_buffer)
    else if not (ready o)
    then (o, not_ready)
    else reply_read o size (receive o.read_deadline late o.peer_data)

-- net.IP.Equal: an IPv4 address and its IPv6 form are the same.
abbrev pub v4_prefix : List ℕ
v4_prefix = 0 ∷ 0 ∷ 0 ∷ 0 ∷ 0 ∷ 0 ∷ 0 ∷ 0 ∷ 0 ∷ 0 ∷ 255 ∷ 255 ∷ []

unfoldable pub ip_equal : List ℕ → List ℕ → Bool
ip_equal x y =
    if eqb (length x) (length y)
    then x == y
    else if eqb (length x) 4 && eqb (length y) 16
    then (take 12 y == v4_prefix) && (drop 12 y == x)
    else if eqb (length x) 16 && eqb (length y) 4
    then (take 12 x == v4_prefix) && (drop 12 x == y)
    else false

-- The address of a peer: the external one, or the internal one if the peer is behind the same
-- external IP. `none` is a panic: an index out of range, or a nil external address.
unfoldable pub choose_address : Option UdpAddr → Session → Option UdpAddr
unfolding ip_equal
choose_address ext [] = none
choose_address none (a ∷ s) = none
choose_address (some e) (a ∷ []) = if ip_equal a.ip e.ip then none else some a
choose_address (some e) (a ∷ b ∷ s) = if ip_equal a.ip e.ip then some b else some a

-- The same, where a log line names the first two addresses after the write, whether it fails or not.
unfoldable pub logged_address : Option UdpAddr → Session → Option UdpAddr
unfolding choose_address
logged_address ext [] = none
logged_address ext (a ∷ []) = none
logged_address ext (a ∷ b ∷ s) = choose_address ext (a ∷ b ∷ s)

-- The loop of `multicastMessage` over the peers: the addresses that are written to, in order. An
-- error stays in `err`, and nothing more is written. `delivers` tells which writes succeed.
unfoldable pub multicast_loop :
    (UdpAddr → Bool) → OverlayConn → SessionTable → Bool → List UdpAddr → Option (List UdpAddr)
multicast_loop delivers o [] failed sent = some sent
multicast_loop delivers o ((id, addrs) ∷ ps) failed sent =
    let skip = multicast_loop delivers o ps failed sent in
    if id == o.id then skip else elim (logged_address o.external_addr addrs) [
      | none ↦ none
      | some addr ↦ elim failed [
        | true ↦ multicast_loop delivers o ps true sent
        | false ↦ multicast_loop delivers o ps (not (delivers addr)) (sent ++ addr ∷ [])
      ]
    ]

pub data WriteReply : Type 0 where
  wrote : ℕ → List UdpAddr → WriteReply
  too_large not_built not_ready_to_write panics : WriteReply

module _ (s : Stun) (delivers : UdpAddr → Bool) where
  -- The data indication that is sent to every peer.
  unfoldable pub data_message : OverlayConn → List ℕ → Option s.Message
  data_message o b = s.build (
      s.set_fresh_transaction_id
      ∷ s.set_type (record { method = method_data; class = class_indication })
      ∷ peer_message_add_to s b
      ∷ peer_id_add_to s o.id
      ∷ s.set_integrity o.config.stun_password
      ∷ s.set_fingerprint
      ∷ [])

  unfoldable pub multicast_message : OverlayConn → List ℕ → WriteReply
  multicast_message o b = elim (data_message o b) [
    | none ↦ not_built
    | some msg ↦ elim (multicast_loop delivers o o.peers false []) [
      | none ↦ panics
      | some sent ↦ wrote (length b) sent
    ]
  ]

  abbrev pub writes_in : State → Bool
  writes_in state_listening = true
  writes_in state_processing_message = true
  writes_in _ = false

  -- Write; the receiver is nil (`none`) on an agent without UDP.
  unfoldable pub write : Option OverlayConn → List ℕ → WriteReply
  unfolding multicast_message
  write o b = if ltb stun_max_packet_data_size (length b) then too_large else elim o [
    | none ↦ panics
    | some conn ↦
        if writes_in conn.automata.current then multicast_message conn b else not_ready_to_write
  ]

  -- Close raises an event, whatever callback is pending.
  unfoldable pub close : Running s → Running s
  close r = raise_event s r.overlay r.pending event_close

unfoldable pub set_deadline : OverlayConn → ℕ → OverlayConn
set_deadline o t = record o { read_deadline = some t; write_deadline = some t }

unfoldable pub set_read_deadline : OverlayConn → ℕ → OverlayConn
set_read_deadline o t = record o { read_deadline = some t }

unfoldable pub set_write_deadline : OverlayConn → ℕ → OverlayConn
set_write_deadline o t = record o { write_deadline = some t }
