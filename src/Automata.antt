-- ===== src/Automata.antt =====
-- automata.go: the finite state machine that drives the overlay connection.
-- A callback is a value `C` that `Event` hands back to its caller together with the machine that
-- has moved: the caller (Overlay.antt) runs it. The mutex and the log line are not modelled.
use p2p_update.Common.{ℕ, String, ◌≡◌, ◌↔◌, Option, none, some, true, List, [], ◌∷◌, arith, Eq, eqb}
use p2p_update.Common.Dict.{Dict, lookup, insert}
pub mod Transitions
mod Tests

pub data State : Type 0 where
  state_closed state_opening state_opened state_binding : State
  state_bind_error state_listening state_processing_message state_message_error : State

pub data Event : Type 0 where
  event_open event_close event_bind event_success : Event
  event_error event_under_limit event_over_limit event_channel_expired : Event

-- The constants' values: `iota`, and `iota + 100`.
abbrev pub state_value : State → ℕ
state_value state_closed = 0
state_value state_opening = 1
state_value state_opened = 2
state_value state_binding = 3
state_value state_bind_error = 4
state_value state_listening = 5
state_value state_processing_message = 6
state_value state_message_error = 7

abbrev pub event_value : Event → ℕ
event_value event_open = 100
event_value event_close = 101
event_value event_bind = 102
event_value event_success = 103
event_value event_error = 104
event_value event_under_limit = 105
event_value event_over_limit = 106
event_value event_channel_expired = 107

pub state_value_iff : (s t : State) → (eqb (state_value s) (state_value t) ≡ true) ↔ (s ≡ t)
state_value_iff s t = ground arith

pub event_value_iff : (s t : Event) → (eqb (event_value s) (event_value t) ≡ true) ↔ (s ≡ t)
event_value_iff s t = ground arith

instance abbrev pub state_eq : Eq State
state_eq = record {
  equals = λ s t. eqb (state_value s) (state_value t);
  equals_iff = state_value_iff;
}

instance abbrev pub event_eq : Eq Event
event_eq = record {
  equals = λ s t. eqb (event_value s) (event_value t);
  equals_iff = event_value_iff;
}

pub record Transition : Type 0 where
  pub src : State
  pub event : Event
  pub dest : State

pub record Automata (C : Type 0) : Type 0 where
  pub current : State
  pub transitions : Dict State (Dict Event State)
  pub callbacks : Dict State C

abbrev pub or_empty {ℓ} : {A : Type ℓ} → Option (List A) → List A
or_empty none = []
or_empty (some m) = m

-- One round of the loop of `NewAutomata`.
unfoldable pub add_transition :
    Dict State (Dict Event State) → Transition → Dict State (Dict Event State)
add_transition m t = insert t.src (insert t.event t.dest (or_empty (lookup t.src m))) m

unfoldable pub add_transitions :
    Dict State (Dict Event State) → List Transition → Dict State (Dict Event State)
add_transitions m [] = m
add_transitions m (t ∷ ts) = add_transitions (add_transition m t) ts

unfoldable pub new_automata : {C : Type 0} → State → List Transition → Dict State C → Automata C
new_automata current ts callbacks = record {
  current = current;
  transitions = add_transitions [] ts;
  callbacks = callbacks;
}

-- a.transitions[a.current][event]: the zero value of a missing inner map is an empty one.
abbrev pub destination : Dict State (Dict Event State) → State → Event → Option State
destination m s e = lookup e (or_empty (lookup s m))

-- The error of `Event`, with the state and the event that its text names.
pub data Reply (C : Type 0) : Type 0 where
  moved : Option C → Reply C
  no_transition : State → Event → Reply C

abbrev enter : {C : Type 0} → Automata C → Event → Option State → Automata C × Reply C
enter a e none = (a, no_transition a.current e)
enter a e (some dest) = (record a { current = dest }, moved (lookup dest a.callbacks))

unfoldable pub raise : {C : Type 0} → Automata C → Event → Automata C × Reply C
raise a e = enter a e (destination a.transitions a.current e)

unfoldable pub state_string : State → String
state_string state_closed = "closed"
state_string state_opening = "opening"
state_string state_opened = "opened"
state_string state_binding = "binding"
state_string state_bind_error = "bindError"
state_string state_listening = "listening"
state_string state_processing_message = "processingMessage"
state_string state_message_error = "messageError"

unfoldable pub event_string : Event → String
event_string event_bind = "bind"
event_string event_channel_expired = "channelExpired"
event_string event_close = "close"
event_string event_error = "error"
event_string event_open = "open"
event_string event_over_limit = "overLimit"
event_string event_success = "success"
event_string event_under_limit = "underLimit"
