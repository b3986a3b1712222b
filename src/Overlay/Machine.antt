-- ===== src/Overlay/Machine.antt =====
-- The steps of the overlay's machine (overlaysock.go, automata.go). `Event` runs the callback of the
-- state that it enters, which raises the next event: here a step runs the pending callback with
-- what the network answers it, and raises that event.
use p2p_update.Common.{Option, none, some, List, [], ◌∷◌, bytes_eq}
use p2p_update.Automata.{Event, event_open, Automata, raise, Reply, moved, no_transition}
use p2p_update.Stun.{Stun}
use p2p_update.Peer.{PeerId, Msgpack}
use p2p_update.Overlay.{
  OverlayConfig, OverlayConn, new_overlay_conn, Callback, Answers, run_callback,
}

module _ (s : Stun) where
  -- The connection, and the callback that its goroutine is about to run, if any.
  pub record Running : Type 0 where
    pub overlay : OverlayConn
    pub pending : Option Callback

  abbrev after_reply : OverlayConn → Option Callback → Automata Callback × Reply Callback → Running
  after_reply o cb (a, moved next) = record { overlay = record o { automata = a }; pending = next }
  after_reply o cb (a, no_transition st e) = record { overlay = o; pending = cb }

  -- overlay.automata.Event(e), called while `cb` is pending: the latter stays where it is refused.
  unfoldable pub raise_event : OverlayConn → Option Callback → Event → Running
  raise_event o cb e = after_reply o cb (raise o.automata e)

  abbrev pub raise_next : OverlayConn × Option Event → Running
  raise_next (o, none) = record { overlay = o; pending = none }
  raise_next (o, some e) = raise_event o none e

  -- One step: the pending callback runs and raises its event.
  unfoldable pub step : Msgpack → Answers s → Running → Running
  step mp w r = elim r.pending [
    | none ↦ r
    | some cb ↦ raise_next (run_callback s mp w cb r.overlay)
  ]

  unfoldable pub run : Msgpack → List (Answers s) → Running → Running
  run mp [] r = r
  run mp (w ∷ ws) r = run mp ws (step mp w r)

  -- NewOverlayConn: the machine is created and the event `open` is raised.
  unfoldable pub start_overlay : PeerId → OverlayConfig → Running
  unfolding new_overlay_conn
  start_overlay pid cfg = raise_event (new_overlay_conn pid cfg) none event_open
