-- ===== src/Overlay.antt =====
-- overlaysock.go: the overlay connection, its state machine, and the callbacks of the states. A
-- callback returns the connection after it and the event that it raises; the steps of the machine
-- are in Overlay/Machine.antt.
use p2p_update.Common.{
  ℕ, ◌+◌, ◌≡◌, Bool, true, false, not, ◌&&◌, ◌||◌, Option, none, some, List, [], ◌∷◌, ◌++◌, Text,
  if◌then◌else◌, ltb, leb, length, ok, err, panic, bytes_eq,
}
use p2p_update.Common.Dict.{Dict, merge}
use p2p_update.Automata.{
  State, state_closed, state_opening, state_opened, state_binding, state_bind_error,
  state_listening, state_processing_message, state_message_error, Event, event_open, event_close,
  event_bind, event_success, event_error, event_under_limit, event_over_limit,
  event_channel_expired, Transition, Automata, new_automata,
}
use p2p_update.Stun.{
  Stun, UdpAddr, MessageType, Method, Class, method_binding, method_data, method_channel_bind,
  class_indication, class_success_response, attr_data,
}
use p2p_update.Peer.{
  TorrentPorts, PeerId, zero_peer_id, SessionTable, Msgpack, validate_message, peer_id_get_from,
  get_session_table_from,
}
pub mod Machine
pub mod Diagram
pub mod Callbacks
pub mod Progress
pub mod Io
pub mod Multicast
pub mod Channel
pub mod Socket
pub mod KeepAlive
pub mod Errors
pub mod Bounds
mod Tests

-- The methods that `createAutomata` registers as callbacks.
pub data Callback : Type 0 where
  closed opening opened binding bind_error listening processing_message message_error : Callback

abbrev pub transition : State → Event → State → Transition
transition s e d = record { src = s; event = e; dest = d }

abbrev pub overlay_transitions : List Transition
overlay_transitions =
    transition state_closed event_open state_opening
    ∷ transition state_opening event_success state_opened
    ∷ transition state_opening event_error state_closed
    ∷ transition state_opened event_close state_closed
    ∷ transition state_opened event_bind state_binding
    ∷ transition state_binding event_success state_listening
    ∷ transition state_binding event_error state_bind_error
    ∷ transition state_bind_error event_under_limit state_opened
    ∷ transition state_bind_error event_over_limit state_closed
    ∷ transition state_listening event_close state_closed
    ∷ transition state_listening event_success state_processing_message
    ∷ transition state_listening event_error state_message_error
    ∷ transition state_listening event_channel_expired state_binding
    ∷ transition state_processing_message event_success state_listening
    ∷ transition state_processing_message event_error state_message_error
    ∷ transition state_message_error event_under_limit state_listening
    ∷ transition state_message_error event_over_limit state_binding
    ∷ []

abbrev pub overlay_callbacks : Dict State Callback
overlay_callbacks =
    (state_opening, opening)
    ∷ (state_opened, opened)
    ∷ (state_binding, binding)
    ∷ (state_bind_error, bind_error)
    ∷ (state_listening, listening)
    ∷ (state_processing_message, processing_message)
    ∷ (state_message_error, message_error)
    ∷ (state_closed, closed)
    ∷ []

unfoldable pub create_automata : Automata Callback
unfolding new_automata
create_automata = new_automata state_closed overlay_transitions overlay_callbacks

-- Waiting times are in seconds.
pub record OverlayConfig : Type 0 where
  pub address : Text
  pub server : Text
  pub stun_password : Text
  pub binding_wait : ℕ
  pub binding_max_errors : ℕ
  pub listening_wait : ℕ
  pub listening_max_errors : ℕ
  pub listening_buffer_size : ℕ
  pub error_backoff : ℕ
  pub channel_lifespan : ℕ
  pub torrent_ports : TorrentPorts

-- Sockets and clients are present or nil. Times are in seconds.
pub record OverlayConn : Type 0 where
  pub id : PeerId
  pub reopen : Bool
  pub config : OverlayConfig
  pub external_addr : Option UdpAddr
  pub automata : Automata Callback
  pub conn : Bool
  pub stun : Bool
  pub err_count : ℕ
  pub channel_expired : ℕ
  pub msg : List ℕ
  pub sender_addr : Option UdpAddr
  pub peers : SessionTable
  pub peer_data : List (List ℕ)
  pub read_deadline : Option ℕ
  pub write_deadline : Option ℕ

-- make(chan []byte, 16)
abbrev pub peer_data_capacity : ℕ
peer_data_capacity = 16

unfoldable pub new_overlay_conn : PeerId → OverlayConfig → OverlayConn
unfolding create_automata
new_overlay_conn pid cfg = record {
  id = pid;
  reopen = true;
  config = cfg;
  external_addr = none;
  automata = create_automata;
  conn = false;
  stun = false;
  err_count = 0;
  channel_expired = 0;
  msg = [];
  sender_addr = none;
  peers = [];
  peer_data = [];
  read_deadline = none;
  write_deadline = none;
}

module _ (s : Stun) where
  -- What the network and the clock answer to a callback. The handler of a binding request gets an
  -- error (`none`), an event with no message, or a message.
  pub record Answers : Type 0 where
    pub listens : Bool
    pub client_made : Bool
    pub deadline_set : Bool
    pub request_built : Bool
    pub request_started : Bool
    pub response : Option (Option s.Message)
    pub received : Option (List ℕ × UdpAddr)
    pub now : ℕ

  unfoldable pub update_session_table : Msgpack → OverlayConn → s.Message → OverlayConn × Bool
  update_session_table mp o req = elim (get_session_table_from s mp req) [
    | none ↦ (o, false)
    | some st ↦ (record o { peers = merge o.peers st }, true)
  ]

  -- peerDataIndication: the data is dropped with an error if the channel is full.
  unfoldable pub peer_data_indication : OverlayConn → s.Message → OverlayConn × Bool
  peer_data_indication o req = elim (s.get attr_data req) [
    | none ↦ (o, false)
    | some bytes ↦
        if ltb (length o.peer_data) peer_data_capacity
        then (record o { peer_data = o.peer_data ++ bytes ∷ [] }, true)
        else (o, false)
  ]

  unfoldable pub parse_header : OverlayConn → Option s.Message
  parse_header o = if not (s.is_message o.msg) then none else elim (s.decode o.msg) [
    | none ↦ none
    | some req ↦ elim (validate_message s req none o.config.stun_password) [
      | some invalid ↦ none
      | none ↦ elim (peer_id_get_from s zero_peer_id req) [
        | ok pid ↦ some req
        | err e ↦ none
        | panic ↦ none
      ]
    ]
  ]

  -- The switch of `processingMessage` on the method and the class; other messages are bad.
  unfoldable pub dispatch : Msgpack → OverlayConn → s.Message → Method → Class → OverlayConn × Bool
  dispatch mp o req method_binding class_success_response = update_session_table mp o req
  dispatch mp o req method_binding class_indication = update_session_table mp o req
  dispatch mp o req method_data class_indication = peer_data_indication o req
  dispatch mp o req method_channel_bind class_indication = (o, true)
  dispatch mp o req _ _ = (o, false)

  abbrev success_or_error : Bool → Event
  success_or_error true = event_success
  success_or_error false = event_error

  unfoldable pub process : Msgpack → OverlayConn → OverlayConn × Event
  process mp o = elim (parse_header o) [
    | none ↦ (o, event_error)
    | some req ↦
        let t = s.message_type req in
        let (o', fine) = dispatch mp o req t.method t.class in (o', success_or_error fine)
  ]

  -- The handler of the binding request, in the order of its tests.
  unfoldable pub bound : Msgpack → OverlayConn → ℕ → Option (Option s.Message) → OverlayConn × Event
  bound mp o now none = (o, event_error)
  bound mp o now (some none) = (o, event_error)
  bound mp o now (some (some m)) =
      let binding_success : MessageType = record {
        method = method_binding;
        class = class_success_response;
      } in
      elim (validate_message s m (some binding_success) o.config.stun_password) [
        | some invalid ↦ (o, event_error)
        | none ↦ elim (s.get_xor_address m) [
          | none ↦ (o, event_error)
          | some addr ↦
              let (o', fine) = update_session_table mp o m in
              if fine
              then (
                record o' {
                  external_addr = some addr;
                  channel_expired = now + o.config.channel_lifespan;
                },
                event_success,
              )
              else (o', event_error)
        ]
      ]

  -- The counter of bindError and messageError, which are the same but for the limit.
  abbrev count_error : OverlayConn → ℕ → OverlayConn × Event
  count_error o limit =
      if leb limit (o.err_count + 1)
      then (record o { err_count = 0 }, event_over_limit)
      else (record o { err_count = o.err_count + 1 }, event_under_limit)

  abbrev count_message_error : OverlayConn → OverlayConn × Event
  count_message_error o = count_error o o.config.listening_max_errors

  -- A callback: the connection after it, and the event that it raises, if any.
  unfoldable pub run_callback :
      Msgpack → Answers → Callback → OverlayConn → OverlayConn × Option Event
  run_callback mp w closed o = (
    record o { conn = false; stun = false; err_count = 0 },
    if o.reopen then some event_open else none,
  )
  run_callback mp w opening o = (
    record o { conn = w.listens; stun = if w.listens then w.client_made else o.stun },
    some (success_or_error (w.listens && w.client_made)),
  )
  run_callback mp w opened o = (o, some event_bind)
  run_callback mp w binding o =
      if w.deadline_set && (w.request_built && w.request_started)
      then (let (o', e) = bound mp o w.now w.response in (o', some e))
      else (o, some event_error)
  run_callback mp w bind_error o =
      let (o', e) = count_error o o.config.binding_max_errors in (o', some e)
  run_callback mp w listening o =
      if not w.deadline_set then (o, some event_error) else elim w.received [
        | none ↦
            (o, some (if ltb o.channel_expired w.now then event_channel_expired else event_error))
        | some (bytes, addr) ↦ (
          record o {
            channel_expired = w.now + o.config.channel_lifespan;
            msg = bytes;
            sender_addr = some addr;
          },
          some event_success,
        )
      ]
  run_callback mp w processing_message o = let (o', e) = process mp o in (o', some e)
  run_callback mp w message_error o = let (o', e) = count_message_error o in (o', some e)
