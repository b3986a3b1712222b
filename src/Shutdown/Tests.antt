-- ===== src/Shutdown/Tests.antt =====
-- A run of the agent's goroutines, from the start to the end.
use p2p_update.Common.{◌<◌, ◌≡◌, refl, true, false}
use p2p_update.Shutdown.{
  waiting, exited, listening, clearing, Process, started, caught, call_wait, return, register,
  take_signal, clean, quit_received, serve, Reach, here, next, interrupt,
}
use p2p_update.Shutdown.Stopping.{IsIdle, interrupts, Ends, Reach-stopped, caught-Ends}

abbrev idle : Process
idle = record {
  main = waiting;
  catcher = listening;
  serving = true;
  socket = true;
  removable = true;
  pending = false;
  quit = true;
}

abbrev stopped : Process
stopped = record idle { main = exited; catcher = clearing; socket = false }

abbrev start_up : Reach (started false true) idle
start_up =
    next (next (next here (register _ refl refl)) (call_wait _ refl)) (serve _ true refl refl)

abbrev shut_down : Reach idle stopped
shut_down =
    next
      (next (next (next (interrupt here refl) (take_signal _ refl refl refl)) (clean _ refl refl))
        (quit_received _ refl refl))
      (return _ refl)

idle-IsIdle : IsIdle idle
idle-IsIdle = record {
  held = refl;
  listens = refl;
  served = refl;
  removes = refl;
  no_signal = refl;
  not_stopped = refl;
}

caught-Ends_example : Ends (caught idle.catcher idle)
caught-Ends_example = caught-Ends false true idle start_up

Reach-stopped_example : (0 < interrupts shut_down) × (stopped.socket ≡ false)
Reach-stopped_example = Reach-stopped false true start_up idle-IsIdle shut_down refl
