-- ===== src/Server/Updates.antt =====
-- The HTTP service of the server (server.go): its database of notifications, the requests on it,
-- the broadcast of a new notification, and the snapshots. Time is a number of ticks.
use p2p_update.Common.{
  ℕ, Bool, true, false, not, Option, none, some, List, [], ◌∷◌, ◌++◌, Text, if◌then◌else◌, ltb, eqb,
  bytes_eq,
}
use p2p_update.Common.Dict.{Dict, lookup, insert}
use p2p_update.Stun.{Stun, UdpAddr, method_data, class_indication}
use p2p_update.Peer.{SessionTable, peer_message_add_to, peer_id_add_to}
use p2p_update.Notification.{Notification, Crypto, verify}
use p2p_update.Server.{Server}

pub data Request : Type 0 where
  get_request : Request
  post_request : Option Notification → Request
  other_request : Request

-- What a request gets: a status, the database for a GET, and a notification to be broadcast.
pub record Response : Type 0 where
  pub status : ℕ
  pub body : Option (Dict Text Notification)
  pub broadcast : Option Notification

abbrev pub status_only : ℕ → Response
status_only code = record { status = code; body = none; broadcast = none }

abbrev pub stored : Server → Notification → ℕ → Server
stored s n now = record s { updates = insert n.uuid n s.updates; last_modified = now }

abbrev post_over : Server → Notification → ℕ → Option Notification → Server × Response
post_over s n now none = (stored s n now, record { status = 200; body = none; broadcast = some n })
post_over s n now (some old) =
    if ltb n.version old.version
    then (s, status_only 409)
    else if eqb old.version n.version
    then (s, status_only 201)
    else (stored s n now, record { status = 200; body = none; broadcast = some n })

module _ (c : Crypto) (public_key : c.PublicKey) where
  abbrev pub accepted : Notification → Bool
  accepted n = elim (verify c public_key n).1 [ none ↦ true | some _ ↦ false ]

  -- servePostRequest, given what the body decodes to.
  unfoldable pub serve_post_request : Server → Option Notification → ℕ → Server × Response
  serve_post_request s none now = (s, status_only 406)
  serve_post_request s (some n) now =
      if not (accepted n) then (s, status_only 400) else post_over s n now (lookup n.uuid s.updates)

  unfoldable pub serve_http_request : Server → Request → ℕ → Server × Response
  unfolding serve_post_request
  serve_http_request s get_request now =
      (s, record { status = 200; body = some s.updates; broadcast = none })
  serve_http_request s (post_request body) now = serve_post_request s body now
  serve_http_request s other_request now = (s, status_only 400)

-- The database file: `none` where it is not there. A write that fails may leave anything.
pub data Write : Type 0 where
  saved : Write
  save_failed : Option (Dict Text Notification) → Write

unfoldable pub save_updates :
    Server → Option (Dict Text Notification) → Write → Server × Option (Dict Text Notification)
save_updates s file result =
    if not (ltb s.last_saved s.last_modified) then (s, file) else elim result [
      | saved ↦ (record s { last_saved = s.last_modified }, some s.updates)
      | save_failed left ↦ (s, left)
    ]

-- loadUpdates at the start of the server; the notifications are not verified again.
unfoldable pub load_updates : Server → Option (Dict Text Notification) → Server
load_updates s none = record s { updates = [] }
load_updates s (some db) = record s { updates = db }

module _ (st : Stun) (delivers : UdpAddr → Bool) where
  unfoldable pub notification_message : Server → List ℕ → Option st.Message
  notification_message s bytes = st.build (
      st.set_fresh_transaction_id
      ∷ st.set_type (record { method = method_data; class = class_indication })
      ∷ peer_message_add_to st bytes
      ∷ peer_id_add_to st s.id
      ∷ st.set_integrity s.stun_password
      ∷ st.set_fingerprint
      ∷ [])

  -- The loop of `sendUpdateNotificationOverUDP`: after an error nothing more is written. `none` is
  -- an index out of range (an error's log line names the first two addresses of a session).
  unfoldable pub notification_loop : SessionTable → Bool → List UdpAddr → Option (List UdpAddr)
  notification_loop [] failed sent = some sent
  notification_loop ((pid, []) ∷ ps) failed sent = none
  notification_loop ((pid, a ∷ []) ∷ ps) failed sent = elim failed [
    | true ↦ none
    | false ↦ elim (delivers a) [
      | true ↦ notification_loop ps false (sent ++ a ∷ [])
      | false ↦ none
    ]
  ]
  notification_loop ((pid, a ∷ b ∷ rest) ∷ ps) failed sent = elim failed [
    | true ↦ notification_loop ps true sent
    | false ↦ notification_loop ps (not (delivers a)) (sent ++ a ∷ [])
  ]

  -- Where it is written to, given the encoded notification, if it could be encoded.
  unfoldable pub send_update_notification : Server → Option (List ℕ) → Option (List UdpAddr)
  send_update_notification s none = some []
  send_update_notification s (some bytes) = elim (notification_message s bytes) [
    | none ↦ notification_loop s.peers true []
    | some msg ↦ notification_loop s.peers false []
  ]
