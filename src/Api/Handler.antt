-- ===== src/Api/Handler.antt =====
-- The whole request handler of the agent's REST service (requestHandler in api.go), with the views
-- of the configuration, the overlay and the DHT, and rebroadcastUpdate.
use p2p_update.Common.{
  ℕ, suc, zero, Bool, true, false, not, Option, none, some, List, [], ◌∷◌, Text, if◌then◌else◌, eqb,
}
use p2p_update.Notification.{Notification, Crypto}
use p2p_update.Agent.{Agent, Host, get_update}
use p2p_update.Agent.Monitoring.{Written, written, write_failed, write_panics}
use p2p_update.Stun.{Stun, UdpAddr}
use p2p_update.Overlay.{OverlayConn}
use p2p_update.Overlay.Io
use p2p_update.Overlay.Io.{WriteReply, wrote, too_large, not_built, not_ready_to_write, panics}
use p2p_update.Api.{
  Method, get, Route, config, overlay_peers, overlay, update, dht_nodes, bad_route, update_with,
  route, Post, Answer, reply, crashed, no_body, other_body, request_update, request_update_with,
}

-- A request, with the overlay of the agent, which there is not without UDP, and what Notification.Write
-- of a notification to that does (`overlay_write` below).
pub record Visit : Type 0 where
  pub host : Text
  pub path : Text
  pub method : Method
  pub body : Post
  pub connection : Option OverlayConn
  pub write : Notification → Written

-- The error of a write to a peer is not returned.
abbrev pub written_of : WriteReply → Written
written_of (wrote n sent) = written
written_of panics = write_panics
written_of too_large = write_failed
written_of not_built = write_failed
written_of not_ready_to_write = write_failed

-- Notification.Write to the overlay: the notification is encoded first.
abbrev pub overlay_write :
    (s : Stun)
    → (UdpAddr → Bool)
    → (Notification → Option (List ℕ))
    → Option OverlayConn
    → Notification
    → Written
overlay_write s delivers encode o n = elim (encode n) [
  | none ↦ write_failed
  | some bytes ↦ written_of (Io.write s delivers o bytes)
]

-- requestConfig and requestTorrentDhtNodes.
abbrev pub request_view : Method → Answer
request_view get = reply 200 other_body
request_view _ = reply 400 no_body

abbrev pub has_overlay : Option OverlayConn → Bool
has_overlay none = false
has_overlay (some o) = true

-- The overlay has a UDP connection, which it has not before it is opened and when it is closed.
abbrev pub has_connection : Option OverlayConn → Bool
has_connection none = false
has_connection (some o) = o.conn

-- requestOverlayPeers, which dereferences the overlay, and requestOverlay, which dereferences its
-- connection too.
abbrev pub request_overlay : Method → Bool → Answer
request_overlay get there = if there then reply 200 other_body else crashed
request_overlay _ there = reply 400 no_body

module _ (h : Host) (c : Crypto) (public_key : c.PublicKey) where
  abbrev pub request_route : Agent → Visit → Route → Agent × Answer
  request_route a v config = (a, request_view v.method)
  request_route a v overlay_peers = (a, request_overlay v.method (has_overlay v.connection))
  request_route a v overlay = (a, request_overlay v.method (has_connection v.connection))
  request_route a v (update_with uuid) = request_update_with h c public_key a v.method uuid v.write
  request_route a v update = request_update h c public_key a v.method v.body
  request_route a v dht_nodes = (a, request_view v.method)
  request_route a v bad_route = (a, reply 400 no_body)

  unfoldable pub request_handler : Agent → Visit → Agent × Answer
  request_handler a v = request_route a v (route v.host v.path)

-- What rebroadcastUpdate has written, and whether it has panicked.
pub record Rebroadcast : Type 0 where
  pub sent : List Notification
  pub panicked : Bool

abbrev pub write_one : Notification → Written → Rebroadcast → Rebroadcast
write_one n write_panics later = record { sent = []; panicked = true }
write_one n written later = record later { sent = n ∷ later.sent }
write_one n write_failed later = later

-- The rounds of the loop, a minute apart, with the agent and the result of the write at each. The
-- list ends where the process does.
unfoldable pub rebroadcast_rounds : ℕ → Text → ℕ → List (Agent × Written) → Rebroadcast
rebroadcast_rounds zero uuid version moments = record { sent = []; panicked = false }
rebroadcast_rounds (suc i) uuid version [] = record { sent = []; panicked = false }
rebroadcast_rounds (suc i) uuid version ((a, w) ∷ moments) =
    let later = rebroadcast_rounds i uuid version moments in
    elim (get_update a uuid) [
      | none ↦ record { sent = []; panicked = false }
      | some r ↦
          let n = (a.heap r).notification in
          if not (eqb n.version version)
          then record { sent = []; panicked = false }
          else write_one n w later
    ]

unfoldable pub rebroadcast_update : Text → ℕ → List (Agent × Written) → Rebroadcast
rebroadcast_update uuid version moments = rebroadcast_rounds 5 uuid version moments
