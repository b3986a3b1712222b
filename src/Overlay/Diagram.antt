-- ===== src/Overlay/Diagram.antt =====
-- The state machine of the overlay (createAutomata in overlaysock.go) and its diagram
-- (diagrams.md, "State Machine of Overlay").
use p2p_update.Common.{◌≡◌, ◌↔◌, refl, some, arith}
use p2p_update.Automata.{
  State, state_closed, state_opening, state_opened, state_binding, state_bind_error,
  state_listening, state_processing_message, state_message_error, Event, event_open, event_close,
  event_bind, event_success, event_error, event_under_limit, event_over_limit,
  event_channel_expired, destination, add_transitions, add_transition, Automata, raise, moved,
}
use p2p_update.Overlay.{
  create_automata, Callback, closed, opening, opened, binding, bind_error, listening,
  processing_message, message_error,
}

-- The arrows of the diagram.
pub data Arrow : State → Event → State → Type 0 where
  closed_open : Arrow state_closed event_open state_opening
  opening_success : Arrow state_opening event_success state_opened
  opening_error : Arrow state_opening event_error state_closed
  opened_close : Arrow state_opened event_close state_closed
  opened_bind : Arrow state_opened event_bind state_binding
  binding_error : Arrow state_binding event_error state_bind_error
  bind_error_under_limit : Arrow state_bind_error event_under_limit state_opened
  bind_error_over_limit : Arrow state_bind_error event_over_limit state_closed
  binding_success : Arrow state_binding event_success state_listening
  listening_close : Arrow state_listening event_close state_closed
  listening_success : Arrow state_listening event_success state_processing_message
  listening_error : Arrow state_listening event_error state_message_error
  listening_channel_expired : Arrow state_listening event_channel_expired state_binding
  processing_success : Arrow state_processing_message event_success state_listening
  processing_error : Arrow state_processing_message event_error state_message_error
  message_error_under_limit : Arrow state_message_error event_under_limit state_listening
  message_error_over_limit : Arrow state_message_error event_over_limit state_binding

ruleset arrows = (
  closed_open, opening_success, opening_error, opened_close, opened_bind, binding_error,
  bind_error_under_limit, bind_error_over_limit, binding_success, listening_close,
  listening_success, listening_error, listening_channel_expired, processing_success,
  processing_error, message_error_under_limit, message_error_over_limit,
)

destination-Arrow :
    {s d : State} {e : Event} → Arrow s e d → destination create_automata.transitions s e ≡ some d
unfolding create_automata add_transitions add_transition
destination-Arrow closed_open = refl
destination-Arrow _ = refl

Arrow-destination :
    (s d : State) (e : Event) → destination create_automata.transitions s e ≡ some d → Arrow s e d
unfolding create_automata add_transitions add_transition
Arrow-destination s d e h = grind (arith, arrows)

-- The transitions of the machine that `createAutomata` builds are exactly the arrows of the
-- diagram: an event leads from one state to another in the one just when it does in the other.
pub destination-Arrow_iff :
    (s d : State) (e : Event) → (destination create_automata.transitions s e ≡ some d) ↔ Arrow s e d
destination-Arrow_iff s d e = (Arrow-destination s d e, destination-Arrow)

abbrev pub callback_of : State → Callback
callback_of state_closed = closed
callback_of state_opening = opening
callback_of state_opened = opened
callback_of state_binding = binding
callback_of state_bind_error = bind_error
callback_of state_listening = listening
callback_of state_processing_message = processing_message
callback_of state_message_error = message_error

-- The overlay's machine in a given state.
abbrev pub machine_at : State → Automata Callback
machine_at s = record create_automata { current = s }

-- An arrow is taken, and the callback of its target is what runs next.
pub raise-Arrow :
    {s d : State} {e : Event}
    → Arrow s e d
    → raise (machine_at s) e ≡ (machine_at d, moved (some (callback_of d)))
unfolding create_automata add_transitions add_transition raise
raise-Arrow closed_open = refl
raise-Arrow _ = refl
