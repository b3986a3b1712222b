-- ===== src/Overlay/Callbacks.antt =====
-- How the callbacks of the overlay (overlaysock.go) end: which events they raise, and what they
-- leave alone.
use p2p_update.Common.{
  ℕ, ◌+◌, ◌≡◌, ◌⊎◌, refl, Bool, true, false, ◌&&◌, Option, none, some, leb, arith, Option-cases,
  Bool-cases, inl, inr,
}
use p2p_update.Automata.{
  State, state_closed, state_opening, state_opened, state_binding, state_bind_error,
  state_listening, state_processing_message, state_message_error, Event, event_open, event_bind,
  event_success, event_error, event_under_limit, event_over_limit, event_channel_expired,
}
use p2p_update.Stun.{Stun, Method, Class}
use p2p_update.Peer.{Msgpack}
use p2p_update.Overlay.{
  OverlayConn, Callback, binding, listening, processing_message, Answers, run_callback, process,
  bound, dispatch, update_session_table, peer_data_indication, parse_header,
}
use p2p_update.Overlay.Diagram.{
  Arrow, callback_of, closed_open, opening_success, opening_error, opened_bind, binding_error,
  bind_error_under_limit, bind_error_over_limit, binding_success, listening_success,
  listening_error, listening_channel_expired, processing_success, processing_error,
  message_error_under_limit, message_error_over_limit,
}

-- The states in which the callbacks use the socket and the STUN client.
abbrev pub uses_connection : State → Bool
uses_connection state_closed = false
uses_connection state_opening = false
uses_connection _ = true

module _ (s : Stun) (mp : Msgpack) where
  -- What every callback but `closed` and `opening` leaves alone.
  pub record SameConnection (o o' : OverlayConn) : Type 0 where
    pub automata : o'.automata ≡ o.automata
    pub reopen : o'.reopen ≡ o.reopen
    pub conn : o'.conn ≡ o.conn
    pub stun : o'.stun ≡ o.stun

  dispatch-SameConnection :
      (o : OverlayConn) (req : s.Message) (m : Method) (k : Class)
      → SameConnection o (dispatch s mp o req m k).0
  unfolding dispatch update_session_table peer_data_indication
  dispatch-SameConnection o req m k = ground arith

  process-SameConnection : (o : OverlayConn) → SameConnection o (process s mp o).0
  unfolding process
  process-SameConnection o = elim (Option-cases (parse_header s o)) [
    | inl bad ↦
        rw (bad, process) (record { automata = refl; reopen = refl; conn = refl; stun = refl })
    | inr (req, read) ↦
        let t = s.message_type req in
        rw (read, process) (dispatch-SameConnection o req t.method t.class)
  ]

  bound-SameConnection :
      (o : OverlayConn) (now : ℕ) (r : Option (Option s.Message))
      → SameConnection o (bound s mp o now r).0
  unfolding bound update_session_table
  bound-SameConnection o now r = ground arith

  -- How a callback that runs in state `st` ends: it raises an event for which there is an arrow, and
  -- the connection is there if the arrow's target uses it; or the overlay is closed for good.
  abbrev pub Ends : State → OverlayConn → OverlayConn × Option Event → Type 0
  Ends st o x =
      ((x.1 ≡ none) × (st ≡ state_closed) × (o.reopen ≡ false))
      ⊎ ((e : Event) × (d : State) × (x.1 ≡ some e)
          × Arrow st e d
          × (uses_connection d ≡ true → (x.0.conn ≡ true) × (x.0.stun ≡ true)))

  process_event :
      (o : OverlayConn) → ((process s mp o).1 ≡ event_success) ⊎ ((process s mp o).1 ≡ event_error)
  unfolding process
  process_event o = ground arith

  bound_event :
      (o : OverlayConn) (now : ℕ) (r : Option (Option s.Message))
      → ((bound s mp o now r).1 ≡ event_success) ⊎ ((bound s mp o now r).1 ≡ event_error)
  unfolding bound
  bound_event o now r = ground arith

  module _ (w : Answers s) where
    pub run_callback-automata :
        (cb : Callback) (o : OverlayConn)
        → ((run_callback s mp w cb o).0.automata ≡ o.automata)
          × ((run_callback s mp w cb o).0.reopen ≡ o.reopen)
    unfolding run_callback
    run_callback-automata processing_message o = ground (arith, process-SameConnection o)
    run_callback-automata binding o = ground (arith, bound-SameConnection o w.now w.response)
    run_callback-automata _ o = ground arith

    listening_event :
        (o : OverlayConn)
        → let event = (run_callback s mp w listening o).1 in
          (event ≡ some event_success)
          ⊎ ((event ≡ some event_channel_expired) ⊎ (event ≡ some event_error))
    unfolding run_callback
    listening_event o = ground arith

    pub run_callback-Ends :
        (st : State) (o : OverlayConn)
        → (uses_connection st ≡ true → (o.conn ≡ true) × (o.stun ≡ true))
        → Ends st o (run_callback s mp w (callback_of st) o)
    unfolding run_callback
    run_callback-Ends state_closed o c = elim (Bool-cases o.reopen) [
      | inl again ↦ inr (event_open, state_opening, ground arith, closed_open, λ u. cc)
      | inr final ↦ inl (ground arith, refl, final)
    ]
    run_callback-Ends state_opening o c = elim (Bool-cases (w.listens && w.client_made)) [
      | inl fine ↦
          inr (event_success, state_opened, ground arith, opening_success, λ u. ground arith)
      | inr failed ↦ inr (event_error, state_closed, ground arith, opening_error, λ u. cc)
    ]
    run_callback-Ends state_opened o c = inr (event_bind, state_binding, refl, opened_bind, c)
    run_callback-Ends state_binding o c =
        elim (Bool-cases (w.deadline_set && (w.request_built && w.request_started))) [
          | inl asked ↦ elim (bound_event o w.now w.response) [
            | inl fine ↦ inr (
              event_success,
              state_listening,
              ground arith,
              binding_success,
              λ u. ground (arith, bound-SameConnection o w.now w.response, c refl),
            )
            | inr failed ↦ inr (
              event_error,
              state_bind_error,
              ground arith,
              binding_error,
              λ u. ground (arith, bound-SameConnection o w.now w.response, c refl),
            )
          ]
          | inr failed ↦ inr (
            event_error,
            state_bind_error,
            ground arith,
            binding_error,
            λ u. ground (arith, c refl),
          )
        ]
    run_callback-Ends state_bind_error o c =
        elim (Bool-cases (leb o.config.binding_max_errors (o.err_count + 1))) [
          | inl over ↦
              inr (event_over_limit, state_closed, ground arith, bind_error_over_limit, λ u. cc)
          | inr under ↦ inr (
            event_under_limit,
            state_opened,
            ground arith,
            bind_error_under_limit,
            λ u. ground (arith, c refl),
          )
        ]
    run_callback-Ends state_listening o c =
        let x = run_callback s mp w listening o in
        let kept : (x.0.conn ≡ o.conn) × (x.0.stun ≡ o.stun) = ground arith in
        elim (listening_event o) [
          | inl fine ↦ inr (
            event_success,
            state_processing_message,
            fine,
            listening_success,
            λ u. ground (arith, c refl, kept),
          )
          | inr (inl late) ↦ inr (
            event_channel_expired,
            state_binding,
            late,
            listening_channel_expired,
            λ u. ground (arith, c refl, kept),
          )
          | inr (inr failed) ↦ inr (
            event_error,
            state_message_error,
            failed,
            listening_error,
            λ u. ground (arith, c refl, kept),
          )
        ]
    run_callback-Ends state_processing_message o c = elim (process_event o) [
      | inl fine ↦ inr (
        event_success,
        state_listening,
        ground arith,
        processing_success,
        λ u. ground (arith, process-SameConnection o, c refl),
      )
      | inr failed ↦ inr (
        event_error,
        state_message_error,
        ground arith,
        processing_error,
        λ u. ground (arith, process-SameConnection o, c refl),
      )
    ]
    run_callback-Ends state_message_error o c =
        elim (Bool-cases (leb o.config.listening_max_errors (o.err_count + 1))) [
          | inl over ↦ inr (
            event_over_limit,
            state_binding,
            ground arith,
            message_error_over_limit,
            λ u. ground (arith, c refl),
          )
          | inr under ↦ inr (
            event_under_limit,
            state_listening,
            ground arith,
            message_error_under_limit,
            λ u. ground (arith, c refl),
          )
        ]
