-- ===== src/Overlay/Progress.antt =====
-- The overlay's machine (overlaysock.go) never refuses an event of its own callbacks, and the
-- callbacks that use the connection run only while it is there.
use p2p_update.Common.{
  ◌≡◌, ◌⊎◌, refl, sym, subst, ◌∙◌, ap, true, false, Option, none, some, List, [], ◌∷◌, arith,
  Option-cases, inl, inr,
}
use p2p_update.Automata.{State, state_closed, Event, event_open, Automata}
use p2p_update.Stun.{Stun}
use p2p_update.Peer.{Msgpack, PeerId}
use p2p_update.Overlay.{
  OverlayConn, OverlayConfig, Callback, Answers, run_callback, new_overlay_conn,
}
use p2p_update.Overlay.Machine.{Running, raise_event, raise_next, step, run, start_overlay}
use p2p_update.Overlay.Diagram.{Arrow, callback_of, machine_at, raise-Arrow, closed_open}
use p2p_update.Overlay.Callbacks.{uses_connection, run_callback-automata, run_callback-Ends}

module _ (s : Stun) (mp : Msgpack) where
  -- The machine is the one of `createAutomata`; the callback of its state is about to run, unless
  -- the overlay has been closed for good; and the connection is there in the states that use it.
  pub record IsCoherent (r : Running s) : Type 0 where
    pub machine : r.overlay.automata ≡ machine_at r.overlay.automata.current
    pub next :
        (r.pending ≡ some (callback_of r.overlay.automata.current))
        ⊎ ((r.pending ≡ none)
            × (r.overlay.automata.current ≡ state_closed)
            × (r.overlay.reopen ≡ false))
    pub connected :
        uses_connection r.overlay.automata.current ≡ true
        → (r.overlay.conn ≡ true) × (r.overlay.stun ≡ true)

  raise_event-IsCoherent :
      (o : OverlayConn) (cb : Option Callback) {st d : State} {e : Event}
      → o.automata ≡ machine_at st
      → Arrow st e d
      → (uses_connection d ≡ true → (o.conn ≡ true) × (o.stun ≡ true))
      → IsCoherent (raise_event s o cb e)
  unfolding raise_event
  raise_event-IsCoherent o cb m arrow c =
      rw (m, raise-Arrow arrow) (record { machine = refl; next = inl refl; connected = c })

  next_none :
      (x : OverlayConn × Option Event)
      → x.1 ≡ none
      → raise_next s x ≡ record { overlay = x.0; pending = none }
  next_none (o, none) p = refl
  next_none (o, some e) p = cc

  next_some :
      (x : OverlayConn × Option Event) {e : Event}
      → x.1 ≡ some e
      → raise_next s x ≡ raise_event s x.0 none e
  next_some (o, none) p = cc
  next_some (o, some e') {e} p = let same : e' ≡ e = cc in ap (raise_event s o none) same

  callback-IsCoherent :
      (w : Answers s) (st : State) (o : OverlayConn)
      → o.automata ≡ machine_at st
      → (uses_connection st ≡ true → (o.conn ≡ true) × (o.stun ≡ true))
      → IsCoherent (raise_next s (run_callback s mp w (callback_of st) o))
  callback-IsCoherent w st o m c =
      let x = run_callback s mp w (callback_of st) o in
      let (same, reopens) = run_callback-automata s mp w (callback_of st) o in
      elim (run_callback-Ends s mp w st o c) [
        | inl (ended, is_closed, final) ↦
            rw (next_none x ended)
              (closed_for_good x.0 (same ∙ m ∙ ap machine_at is_closed) (reopens ∙ final))
        | inr (e, d, raised, arrow, there) ↦
            rw (next_some x raised) (raise_event-IsCoherent x.0 none (same ∙ m) arrow there)
      ]
    where
      closed_for_good :
          (o' : OverlayConn)
          → o'.automata ≡ machine_at state_closed
          → o'.reopen ≡ false
          → IsCoherent (record { overlay = o'; pending = none })
      closed_for_good o' m' final =
          let at_closed : o'.automata.current ≡ state_closed =
            ap (λ (a : Automata Callback). a.current) m' in
          record {
            machine = m' ∙ ap machine_at (sym at_closed);
            next = inr (refl, at_closed, final);
            connected = λ u. cc (ap uses_connection at_closed);
          }

  step_stopped : (w : Answers s) (r : Running s) → r.pending ≡ none → step s mp w r ≡ r
  unfolding step
  step_stopped w r p = ground arith

  -- Every step of the machine, whatever the network answers, keeps the overlay coherent. So no
  -- event that a callback raises is refused, and no callback uses a missing connection.
  pub step-IsCoherent : (w : Answers s) (r : Running s) → IsCoherent r → IsCoherent (step s mp w r)
  unfolding step
  step-IsCoherent w r h = elim h.next [
    | inl waiting ↦
        rw waiting
          (callback-IsCoherent w r.overlay.automata.current r.overlay h.machine h.connected)
    | inr stopped ↦ subst IsCoherent (sym (step_stopped w r stopped.0)) h
  ]

  raise_next-reopen :
      (x : OverlayConn × Option Event) → (raise_next s x).overlay.reopen ≡ x.0.reopen
  unfolding raise_event
  raise_next-reopen (o, none) = refl
  raise_next-reopen (o, some e) = ground arith

  step-reopen : (w : Answers s) (r : Running s) → (step s mp w r).overlay.reopen ≡ r.overlay.reopen
  unfolding step
  step-reopen w r = elim (Option-cases r.pending) [
    | inl stopped ↦ ground arith
    | inr (cb, waiting) ↦
        let x = run_callback s mp w cb r.overlay in
        ground (arith, raise_next-reopen x, run_callback-automata s mp w cb r.overlay)
  ]

  run-IsCoherent :
      (ws : List (Answers s)) (r : Running s)
      → IsCoherent r
      → IsCoherent (run s mp ws r) × ((run s mp ws r).overlay.reopen ≡ r.overlay.reopen)
  unfolding run
  run-IsCoherent [] r h = (h, refl)
  run-IsCoherent (w ∷ ws) r h =
      let (coherent, reopens) = run-IsCoherent ws (step s mp w r) (step-IsCoherent w r h) in
      (coherent, reopens ∙ step-reopen w r)

  start_overlay-IsCoherent :
      (pid : PeerId) (cfg : OverlayConfig) → IsCoherent (start_overlay s pid cfg)
  unfolding start_overlay
  start_overlay-IsCoherent pid cfg =
      raise_event-IsCoherent (new_overlay_conn pid cfg) none refl closed_open (λ u. cc)

  start_overlay-reopen :
      (pid : PeerId) (cfg : OverlayConfig) → (start_overlay s pid cfg).overlay.reopen ≡ true
  unfolding start_overlay
  start_overlay-reopen pid cfg = raise_next-reopen (new_overlay_conn pid cfg, some event_open)

  -- From NewOverlayConn on, after any number of steps with any answers of the network, the overlay
  -- is coherent and the callback of its current state is about to run: the machine never stops.
  pub run-start_overlay :
      (pid : PeerId) (cfg : OverlayConfig) (ws : List (Answers s))
      → let r = run s mp ws (start_overlay s pid cfg) in
        IsCoherent r × (r.pending ≡ some (callback_of r.overlay.automata.current))
  run-start_overlay pid cfg ws =
      let (h, reopens) =
        run-IsCoherent ws (start_overlay s pid cfg) (start_overlay-IsCoherent pid cfg) in
      (
        h,
        elim h.next [
          | inl waiting ↦ waiting
          | inr (p, q, final) ↦
              absurd (stays (sym (reopens ∙ start_overlay-reopen pid cfg) ∙ final))
        ],
      )
    where
      stays : true ≡ false → ⊥
      stays e = cc
