-- ===== src/Api/Crashes.antt =====
-- When the REST service of the agent (api.go) panics, with the writes to the overlay (overlaysock.go).
use p2p_update.Common.{ℕ, List, [], length, ◌≤◌, ◌≡◌, ◌↔◌, Bool, true, false, Option, none, some}
use p2p_update.Notification.{Notification, Crypto}
use p2p_update.Stun.{Stun, UdpAddr}
use p2p_update.Agent.Monitoring.{Written, write_panics}
use p2p_update.Overlay.Io.{writes_in, data_message, multicast_loop, stun_max_packet_data_size}
use p2p_update.Agent.{Agent, Host, get_update}
use p2p_update.Overlay.{OverlayConn}
use p2p_update.Api.{Method, get, patch, Route, overlay_peers, overlay, update_with}
use p2p_update.Api.Handler.{has_overlay, has_connection}

abbrev pub IsGet : Method → Type 0
IsGet get = Unit
IsGet _ = ⊥

abbrev pub IsPatch : Method → Type 0
IsPatch patch = Unit
IsPatch _ = ⊥

-- The requests that panic: a GET of the peers without an overlay, a GET of the overlay where that
-- has no connection, and a PATCH of an update that is held, the write of which panics.
abbrev pub Panics : Agent → Method → Option OverlayConn → (Notification → Type 0) → Route → Type 0
Panics a m o W overlay_peers = (has_overlay o ≡ false) × IsGet m
Panics a m o W overlay = (has_connection o ≡ false) × IsGet m
Panics a m o W (update_with uuid) =
    IsPatch m × ((r : ℕ) × (get_update a uuid ≡ some r) × W (a.heap r).notification)
Panics a m o W _ = ⊥

-- The write to a connection panics: it is in a state to write, the message is built, and the address
-- of some peer cannot be had.
abbrev pub CannotSend : (s : Stun) → (UdpAddr → Bool) → OverlayConn → List ℕ → Type 0
CannotSend s delivers conn bytes =
    (writes_in s delivers conn.automata.current ≡ true)
    × ((msg : s.Message) × (data_message s delivers conn bytes ≡ some msg))
    × (multicast_loop delivers conn conn.peers false [] ≡ none)

abbrev pub Unsendable : (s : Stun) → (UdpAddr → Bool) → Option OverlayConn → List ℕ → Type 0
Unsendable s delivers none bytes = Unit
Unsendable s delivers (some conn) bytes = CannotSend s delivers conn bytes

-- Notification.Write panics: the encoding is not too large, and there is no overlay, or one that
-- cannot send it.
abbrev pub WritePanics :
    (s : Stun)
    → (UdpAddr → Bool)
    → (Notification → Option (List ℕ))
    → Option OverlayConn
    → Notification
    → Type 0
WritePanics s delivers encode o n =
    (bytes : List ℕ) × (encode n ≡ some bytes)
    × (length bytes ≤ stun_max_packet_data_size)
    × Unsendable s delivers o bytes

module _ (h : Host) (c : Crypto) (public_key : c.PublicKey) where
  -- A predicate that tells when the write panics.
  abbrev Tells : (Notification → Written) → (Notification → Type 0) → Type 0
  Tells w W = (n : Notification) → (w n ≡ write_panics) ↔ W n
