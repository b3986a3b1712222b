-- ===== src/Shutdown.antt =====
-- How the agent stops: Stop, Wait and startCatchingSignals (agent.go), with Start of the REST service
-- (api.go) and the end of agentCmd (main.go), as interleaved steps of three goroutines. `quit` is an
-- unbuffered channel, and the channel of signals has one place.
use p2p_update.Common.{◌≡◌, Bool, true, false, not, ◌&&◌, if◌then◌else◌}
pub mod Stopping
mod Tests

-- The main goroutine after `NewAgent`: before `Wait` has read `quit`, receiving from it, after it, and
-- at its end. The process may die before.
pub data Main : Type 0 where
  launched waiting released exited died : Main

-- startCatchingSignals: before `Notify`, receiving a signal, and in `Stop` before the removal of the
-- socket, before `quit` is sent on, and before it is cleared.
pub data Catcher : Type 0 where
  unregistered listening cleaning sending clearing : Catcher

-- `socket` tells that there is a file at the address of the REST service, `removable` that
-- `os.Remove` works on it, `pending` that a signal is in the channel, and `quit` that the agent's
-- field is not nil.
pub record Process : Type 0 where
  pub main : Main
  pub catcher : Catcher
  pub serving : Bool
  pub socket : Bool
  pub removable : Bool
  pub pending : Bool
  pub quit : Bool

-- The end of `NewAgent`.
abbrev pub started : Bool → Bool → Process
started socket removable = record {
  main = launched;
  catcher = unregistered;
  serving = false;
  socket = socket;
  removable = removable;
  pending = false;
  quit = true;
}

abbrev pub runs : Main → Bool
runs exited = false
runs died = false
runs _ = true

-- Wait, up to the receive: it returns at once where `quit` is nil.
abbrev pub wait : Process → Process
wait p = record p { main = if p.quit then waiting else released }

-- Stop, up to the removal, at a signal that the loop has taken.
abbrev pub stop : Process → Process
stop p = record p { pending = false; catcher = if p.quit then cleaning else listening }

abbrev pub remove_socket : Process → Process
remove_socket p = record p { socket = p.socket && not p.removable; catcher = sending }

-- Both ends of a.quit <- 1
abbrev pub hand_over : Process → Process
hand_over p = record p { catcher = clearing; main = released }

-- API.Start: what is at the address after the service has started to listen is the HTTP library's.
abbrev pub start_api : Process → Bool → Process
start_api p file = record p { serving = true; socket = file }

-- The end of agentCmd, and of the process.
abbrev pub end_command : Process → Process
end_command p = record p { main = exited }

-- An interrupt is sent to the process: before `Notify` it ends the process, and one that finds the
-- channel full is lost.
abbrev pub caught : Catcher → Process → Process
caught unregistered p = record p { main = died }
caught _ p = record p { pending = true }

-- The steps of the three goroutines. A service that cannot listen ends the process.
pub data Step : Process → Process → Type 0 where
  call_wait : (p : Process) → p.main ≡ launched → Step p (wait p)
  return : (p : Process) → p.main ≡ released → Step p (end_command p)
  register :
      (p : Process)
      → runs p.main ≡ true
      → p.catcher ≡ unregistered
      → Step p (record p { catcher = listening })
  take_signal :
      (p : Process)
      → runs p.main ≡ true
      → p.catcher ≡ listening
      → p.pending ≡ true
      → Step p (stop p)
  clean : (p : Process) → runs p.main ≡ true → p.catcher ≡ cleaning → Step p (remove_socket p)
  quit_received : (p : Process) → p.main ≡ waiting → p.catcher ≡ sending → Step p (hand_over p)
  clear :
      (p : Process)
      → runs p.main ≡ true
      → p.catcher ≡ clearing
      → Step p (record p { quit = false; catcher = listening })
  serve :
      (p : Process) (file : Bool)
      → runs p.main ≡ true
      → p.serving ≡ false
      → Step p (start_api p file)
  serve_failed : (p : Process) → runs p.main ≡ true → Step p (record p { main = died })

-- A run of the process, in which interrupts come at any time.
pub data Reach (p : Process) : Process → Type 0 where
  here : Reach p p
  next : {q r : Process} → Reach p q → Step q r → Reach p r
  interrupt : {q : Process} → Reach p q → runs q.main ≡ true → Reach p (caught q.catcher q)
