-- ===== src/Automata/Tests.antt =====
-- Tests of Automata.antt: a list in which the later of two transitions counts.
use p2p_update.Common.{ℕ, ◌≡◌, refl, some, List, [], ◌∷◌}
use p2p_update.Common.Dict.{Dict}
use p2p_update.Automata.{
  State, state_closed, state_opening, state_opened, event_open, event_close, Transition,
  new_automata, add_transitions, add_transition, raise, moved, no_transition,
}

abbrev twice : List Transition
twice =
    record { src = state_closed; event = event_open; dest = state_opening }
    ∷ record { src = state_closed; event = event_open; dest = state_opened }
    ∷ []

abbrev callbacks : Dict State ℕ
callbacks = (state_opened, 7) ∷ []

raise_later : (raise (new_automata state_closed twice callbacks) event_open).1 ≡ moved (some 7)
unfolding raise new_automata add_transitions add_transition
raise_later = refl

raise_refused :
    (raise (new_automata state_closed twice callbacks) event_close).1
    ≡ no_transition state_closed event_close
unfolding raise new_automata add_transitions add_transition
raise_refused = refl
