-- ===== src/Automata/Transitions.antt =====
-- The table that `NewAutomata` builds (automata.go), against the list that it is given.
use p2p_update.Common.{
  ◌≡◌, refl, Option, none, some, List, [], ◌∷◌, ◌&&◌, arith, ◌==◌, if◌then◌else◌, ap, ◌∙◌,
}
use p2p_update.Common.Dict.{Dict, lookup, insert, lookup-insert}
use p2p_update.Automata.{
  State, Event, Transition, Automata, or_empty, add_transition, add_transitions, new_automata,
  destination, raise, Reply, moved, no_transition, state_eq, event_eq, state_value_iff,
}

-- The destination that a list of transitions gives: of several that fit, the last one counts.
unfoldable pub last_dest : List Transition → State → Event → Option State → Option State
last_dest [] s e found = found
last_dest (t ∷ ts) s e found =
    last_dest ts s e (if (t.src == s) && (t.event == e) then some t.dest else found)

destination-add_transition :
    (m : Dict State (Dict Event State)) (t : Transition) (s : State) (e : Event)
    → destination (add_transition m t) s e
      ≡ (if (t.src == s) && (t.event == e) then some t.dest else destination m s e)
unfolding add_transition
destination-add_transition m t s e = ground (
  arith,
  lookup-insert t.src s (insert t.event t.dest (or_empty (lookup t.src m))) m,
  lookup-insert t.event e t.dest (or_empty (lookup t.src m)),
  state_value_iff t.src s,
)

destination-add_transitions :
    (m : Dict State (Dict Event State)) (ts : List Transition) (s : State) (e : Event)
    → destination (add_transitions m ts) s e ≡ last_dest ts s e (destination m s e)
unfolding add_transitions last_dest
destination-add_transitions m [] s e = refl
destination-add_transitions m (t ∷ ts) s e =
    destination-add_transitions (add_transition m t) ts s e
    ∙ ap (last_dest ts s e) (destination-add_transition m t s e)

-- What `Event` does to a machine, read off the list of transitions that `NewAutomata` was given:
-- it moves to the destination of the last one that fits and returns that state's callback, or it
-- refuses the event and changes nothing.
abbrev pub outcome : {C : Type 0} → Automata C → Event → Option State → Automata C × Reply C
outcome a e none = (a, no_transition a.current e)
outcome a e (some dest) = (record a { current = dest }, moved (lookup dest a.callbacks))

-- For every list of transitions, `Event` on the machine that `NewAutomata` builds from it, in any
-- current state, takes the last transition of the list with that source and event, and returns the
-- callback of the destination; where the list has none it returns the error and the machine is
-- unchanged.
pub raise-new_automata :
    {C : Type 0} (current : State) (ts : List Transition) (callbacks : Dict State C) (e : Event)
    → let a = new_automata current ts callbacks in
      raise a e ≡ outcome a e (last_dest ts current e none)
unfolding raise new_automata
raise-new_automata current ts callbacks e =
    rw (destination-add_transitions [] ts current e) (ground arith)
