-- ===== src/Overlay/Bounds.antt =====
-- The bounds that the overlay keeps (overlaysock.go): its error counter stays below the larger of
-- the two limits, and its channel holds at most sixteen messages.
use p2p_update.Common.{
  ℕ, ◌≡◌, ◌≤◌, ◌<◌, refl, Option, none, some, List, [], ◌∷◌, length, length-append, arith,
  Option-cases, inl, inr,
}
use Prim.Native.Nat.{max}
use p2p_update.Automata.{Event, event_open}
use p2p_update.Stun.{Stun, Method, Class, attr_data}
use p2p_update.Peer.{Msgpack, PeerId}
use p2p_update.Overlay.{
  OverlayConn, OverlayConfig, peer_data_capacity, Callback, Answers, run_callback, binding,
  processing_message, process, parse_header, bound, dispatch, update_session_table,
  peer_data_indication, new_overlay_conn,
}
use p2p_update.Overlay.Machine.{Running, raise_event, raise_next, step, run, start_overlay}

module _ (cfg : OverlayConfig) where
  abbrev pub limit : ℕ
  limit = max cfg.binding_max_errors cfg.listening_max_errors

  pub record IsBounded (o : OverlayConn) : Type 0 where
    pub config : o.config ≡ cfg
    pub counted : o.err_count < limit
    pub buffered : length o.peer_data ≤ peer_data_capacity

  module _ (s : Stun) (mp : Msgpack) where
    dispatch-IsBounded :
        (o : OverlayConn) (req : s.Message) (m : Method) (k : Class)
        → IsBounded o
        → IsBounded (dispatch s mp o req m k).0
    unfolding dispatch update_session_table peer_data_indication
    dispatch-IsBounded o req m k b = elim (Option-cases (s.get attr_data req)) [
      | inl absent ↦ ground arith
      | inr (bytes, present) ↦ ground (arith, length-append o.peer_data (bytes ∷ []))
    ]

    process-IsBounded : (o : OverlayConn) → IsBounded o → IsBounded (process s mp o).0
    unfolding process
    process-IsBounded o b = elim (Option-cases (parse_header s o)) [
      | inl bad ↦ rw (bad, process) b
      | inr (req, read) ↦
          let t = s.message_type req in
          rw (read, process) (dispatch-IsBounded o req t.method t.class b)
    ]

    bound-IsBounded :
        (o : OverlayConn) (now : ℕ) (r : Option (Option s.Message))
        → IsBounded o
        → IsBounded (bound s mp o now r).0
    unfolding bound update_session_table
    bound-IsBounded o now r b = ground arith

    run_callback-IsBounded :
        (o : OverlayConn) (w : Answers s) (cb : Callback)
        → 0 < limit
        → IsBounded o
        → IsBounded (run_callback s mp w cb o).0
    unfolding run_callback
    run_callback-IsBounded o w processing_message p b = process-IsBounded o b
    run_callback-IsBounded o w binding p b = ground (arith, bound-IsBounded o w.now w.response b)
    run_callback-IsBounded o w _ p b = ground arith

    raise_next-IsBounded :
        (x : OverlayConn × Option Event) → IsBounded x.0 → IsBounded (raise_next s x).overlay
    unfolding raise_event
    raise_next-IsBounded (o, none) b = b
    raise_next-IsBounded (o, some e) b = ground arith

    step-IsBounded :
        (w : Answers s) (r : Running s)
        → 0 < limit
        → IsBounded r.overlay
        → IsBounded (step s mp w r).overlay
    unfolding step
    step-IsBounded w r p b = elim (Option-cases r.pending) [
      | inl stopped ↦ ground arith
      | inr (cb, waiting) ↦
          let x = run_callback s mp w cb r.overlay in
          ground (arith, raise_next-IsBounded x (run_callback-IsBounded r.overlay w cb p b))
    ]

    run-IsBounded :
        (ws : List (Answers s)) (r : Running s)
        → 0 < limit
        → IsBounded r.overlay
        → IsBounded (run s mp ws r).overlay
    unfolding run
    run-IsBounded [] r p b = b
    run-IsBounded (w ∷ ws) r p b = run-IsBounded ws (step s mp w r) p (step-IsBounded w r p b)

    -- From NewOverlayConn on, after any number of steps with any answers of the network, the error
    -- counter is below the larger of the two limits, of which one at least is positive, the channel
    -- holds at most sixteen messages, and the configuration is unchanged.
    pub start_overlay-IsBounded :
        (pid : PeerId) (ws : List (Answers s))
        → 0 < limit
        → IsBounded (run s mp ws (start_overlay s pid cfg)).overlay
    unfolding start_overlay new_overlay_conn
    start_overlay-IsBounded pid ws p = run-IsBounded ws (start_overlay s pid cfg) p (
        raise_next-IsBounded (new_overlay_conn pid cfg, some event_open)
          (record { config = refl; counted = p; buffered = omega arith }))
