-- ===== src/Shutdown/Stopping.antt =====
-- What stops an agent, and that it stops (Stop, Wait and startCatchingSignals in agent.go).
use p2p_update.Common.{
  ℕ, zero, suc, ◌+◌, ◌<◌, ◌≤◌, ◌≡◌, refl, Bool, true, false, inl, inr, arith, Bool-cases,
}
use p2p_update.Shutdown.{
  Main, launched, waiting, released, exited, died, Catcher, unregistered, listening, cleaning,
  sending, clearing, Process, started, runs, caught, Step, call_wait, return, register, take_signal,
  clean, quit_received, clear, serve, serve_failed, Reach, here, next, interrupt,
}

-- Before the main goroutine has received from `quit`.
abbrev pub is_held : Main → Bool
is_held launched = true
is_held waiting = true
is_held _ = false

-- `Stop` has sent on `quit`.
abbrev pub has_sent : Catcher → Bool → Bool
has_sent clearing quit = true
has_sent listening false = true
has_sent _ _ = false

-- `Stop` has removed the socket.
abbrev pub has_cleaned : Catcher → Bool → Bool
has_cleaned sending quit = true
has_cleaned catcher quit = has_sent catcher quit

abbrev pub ends_well : Main → Bool
ends_well released = true
ends_well exited = true
ends_well _ = false

-- The invariant: the main goroutine leaves `Wait` exactly when `Stop` has sent on `quit`.
pub record IsOrderly (p : Process) : Type 0 where
  pub held : is_held p.main ≡ true → has_sent p.catcher p.quit ≡ false
  pub let_go : ends_well p.main ≡ true → has_sent p.catcher p.quit ≡ true
  pub kept : has_sent p.catcher p.quit ≡ false → p.quit ≡ true

started-IsOrderly : (socket removable : Bool) → IsOrderly (started socket removable)
started-IsOrderly socket removable = ground arith

Step-IsOrderly : {p q : Process} → Step p q → IsOrderly p → IsOrderly q
Step-IsOrderly (call_wait p m) h = ground arith
Step-IsOrderly (return p m) h = ground arith
Step-IsOrderly (register p m c) h = ground arith
Step-IsOrderly (take_signal p m c s) h = ground arith
Step-IsOrderly (clean p m c) h = ground arith
Step-IsOrderly (quit_received p m c) h = ground arith
Step-IsOrderly (clear p m c) h = ground arith
Step-IsOrderly (serve p file m s) h = ground arith
Step-IsOrderly (serve_failed p m) h = ground arith

caught-IsOrderly : (c : Catcher) (p : Process) → IsOrderly p → IsOrderly (caught c p)
caught-IsOrderly unregistered p h = ground arith
caught-IsOrderly _ p h = record { held = h.held; let_go = h.let_go; kept = h.kept }

-- The interrupts of a run.
abbrev pub interrupts : {p q : Process} → Reach p q → ℕ
interrupts here = 0
interrupts (next r step) = interrupts r
interrupts (interrupt r run) = suc (interrupts r)

-- The work that is left, in steps at most.
abbrev main_work : Main → ℕ
main_work launched = 3
main_work waiting = 2
main_work released = 1
main_work exited = 0
main_work died = 0

abbrev catcher_work : Catcher → ℕ
catcher_work unregistered = 4
catcher_work listening = 0
catcher_work cleaning = 3
catcher_work sending = 2
catcher_work clearing = 1

abbrev flag_work : Bool → ℕ → ℕ
flag_work true n = n
flag_work false n = 0

abbrev unset_work : Bool → ℕ
unset_work true = 0
unset_work false = 1

abbrev work : Process → ℕ
work p = main_work p.main + catcher_work p.catcher + flag_work p.pending 4 + unset_work p.serving

work-stop : (quit : Bool) → catcher_work (elim quit [ true ↦ cleaning | false ↦ listening ]) ≤ 3
work-stop true = omega arith
work-stop false = omega arith

main_work_pos : (m : Main) → runs m ≡ true → 0 < main_work m
main_work_pos m h = ground arith

-- Every step of the three goroutines takes some of it.
Step-work : {p q : Process} → Step p q → work q < work p
Step-work (call_wait p m) = ground arith
Step-work (return p m) = ground arith
Step-work (register p m c) = ground arith
Step-work (take_signal p m c s) = ground arith
Step-work (clean p m c) = ground arith
Step-work (quit_received p m c) = ground arith
Step-work (clear p m c) = ground arith
Step-work (serve p file m s) = ground arith
Step-work (serve_failed p m) = ground (arith, main_work_pos p.main m)

-- The agent is being stopped: a signal waits, `Stop` runs, or `Wait` has returned.
abbrev pub is_stopping : Main → Catcher → Bool → Bool
is_stopping released c s = true
is_stopping exited c s = true
is_stopping died c s = true
is_stopping _ cleaning s = true
is_stopping _ sending s = true
is_stopping _ c s = s

abbrev pub stopping : Process → Bool
stopping p = is_stopping p.main p.catcher p.pending

Step-stopping : {p q : Process} → Step p q → IsOrderly p → stopping p ≡ true → stopping q ≡ true
Step-stopping (call_wait p m) h e = ground arith
Step-stopping (return p m) h e = ground arith
Step-stopping (register p m c) h e = ground arith
Step-stopping (take_signal p m c s) h e = ground arith
Step-stopping (clean p m c) h e = ground arith
Step-stopping (quit_received p m c) h e = ground arith
Step-stopping (clear p m c) h e = ground arith
Step-stopping (serve p file m s) h e = ground arith
Step-stopping (serve_failed p m) h e = ground arith

-- The step is the failure of the listener, which can come at any time.
abbrev pub is_failure : {p q : Process} → Step p q → Bool
is_failure (serve_failed p m) = true
is_failure _ = false

-- A step of the goroutines themselves.
abbrev CanGo : Process → Type 0
CanGo p = (q : Process) × (step : Step p q) × (is_failure step ≡ false)

-- However the goroutines are scheduled, the process ends, and before that it is never stuck, also
-- where the listener does not fail.
pub data Ends : Process → Type 0 where
  over : (p : Process) → runs p.main ≡ false → Ends p
  goes : (p : Process) → CanGo p → ((r : Process) → Step p r → Ends r) → Ends p

waiting_step :
    (c : Catcher) (p : Process)
    → p.catcher ≡ c
    → p.main ≡ waiting
    → IsOrderly p
    → is_stopping waiting c p.pending ≡ true
    → CanGo p
waiting_step unregistered p e m h d = (_, register p (ground arith) e, refl)
waiting_step listening p e m h d = (_, take_signal p (ground arith) e d, refl)
waiting_step cleaning p e m h d = (_, clean p (ground arith) e, refl)
waiting_step sending p e m h d = (_, quit_received p m e, refl)
waiting_step clearing p e m h d = absurd (ground arith)

some_step :
    (m : Main) (p : Process)
    → p.main ≡ m
    → runs m ≡ true
    → IsOrderly p
    → stopping p ≡ true
    → CanGo p
some_step launched p e r h d = (_, call_wait p e, refl)
some_step waiting p e r h d = waiting_step p.catcher p refl e h (ground arith)
some_step released p e r h d = (_, return p e, refl)
some_step exited p e r h d = absurd (cc)
some_step died p e r h d = absurd (cc)

stopping-Ends : (n : ℕ) (p : Process) → work p < n → IsOrderly p → stopping p ≡ true → Ends p
stopping-Ends zero p w h d = absurd (omega arith)
stopping-Ends (suc n) p w h d = elim (Bool-cases (runs p.main)) [
  | inr ended ↦ over p ended
  | inl run ↦ goes p (some_step p.main p refl run h d) (λ r s.
      stopping-Ends n r (omega (arith, Step-work s)) (Step-IsOrderly s h) (Step-stopping s h d))
]

caught-stopping : (c : Catcher) (p : Process) → stopping (caught c p) ≡ true
caught-stopping unregistered p = refl
caught-stopping listening p = ground arith
caught-stopping cleaning p = ground arith
caught-stopping sending p = ground arith
caught-stopping clearing p = ground arith

pub Reach-IsOrderly : {p q : Process} → Reach p q → IsOrderly p → IsOrderly q
Reach-IsOrderly here h = h
Reach-IsOrderly (next r step) h = Step-IsOrderly step (Reach-IsOrderly r h)
Reach-IsOrderly (interrupt {q = q} r run) h = caught-IsOrderly q.catcher q (Reach-IsOrderly r h)

-- From every state that a started agent reaches, an interrupt ends the process: however the three
-- goroutines are scheduled after it, if no other interrupt comes, they take finitely many steps, and
-- until the process has ended one of them can take a step, also if the listener does not fail.
pub caught-Ends :
    (socket removable : Bool) (p : Process)
    → Reach (started socket removable) p
    → Ends (caught p.catcher p)
caught-Ends socket removable p r =
    let q = caught p.catcher p in
    stopping-Ends (suc (work q)) q (omega arith)
      (caught-IsOrderly p.catcher p (Reach-IsOrderly r (started-IsOrderly socket removable)))
      (caught-stopping p.catcher p)

-- A state between two interrupts, in which the service listens and the agent is not being stopped.
pub record IsIdle (p : Process) : Type 0 where
  pub held : is_held p.main ≡ true
  pub listens : p.catcher ≡ listening
  pub served : p.serving ≡ true
  pub removes : p.removable ≡ true
  pub no_signal : p.pending ≡ false
  pub not_stopped : p.quit ≡ true

-- What a run from such a state keeps: `n` counts its interrupts.
record HasStopped (n : ℕ) (p : Process) : Type 0 where
  served : p.serving ≡ true
  removes : p.removable ≡ true
  cleaned : has_cleaned p.catcher p.quit ≡ true → p.socket ≡ false
  asked : n ≡ 0 → (p.catcher ≡ listening) × (p.pending ≡ false) × (p.quit ≡ true)

IsIdle-HasStopped : (p : Process) → IsIdle p → HasStopped 0 p
IsIdle-HasStopped p i = ground arith

Step-HasStopped : (n : ℕ) {p q : Process} → Step p q → IsOrderly p → HasStopped n p → HasStopped n q
Step-HasStopped n (call_wait p m) o h = ground arith
Step-HasStopped n (return p m) o h = ground arith
Step-HasStopped n (register p m c) o h = ground arith
Step-HasStopped n (take_signal p m c s) o h = ground arith
Step-HasStopped n (clean p m c) o h = ground arith
Step-HasStopped n (quit_received p m c) o h = ground arith
Step-HasStopped n (clear p m c) o h = ground arith
Step-HasStopped n (serve p file m s) o h = ground arith
Step-HasStopped n (serve_failed p m) o h = ground arith

caught-HasStopped :
    (n : ℕ) (c : Catcher) (p : Process) → HasStopped n p → HasStopped (suc n) (caught c p)
caught-HasStopped n unregistered p h = ground arith
caught-HasStopped n listening p h = ground arith
caught-HasStopped n cleaning p h = ground arith
caught-HasStopped n sending p h = ground arith
caught-HasStopped n clearing p h = ground arith

Reach-HasStopped :
    {p q : Process} (r : Reach p q) → IsOrderly p → IsIdle p → HasStopped (interrupts r) q
Reach-HasStopped {p} here o i = IsIdle-HasStopped p i
Reach-HasStopped (next r step) o i =
    Step-HasStopped (interrupts r) step (Reach-IsOrderly r o) (Reach-HasStopped r o i)
Reach-HasStopped (interrupt {q = q} r run) o i =
    caught-HasStopped (interrupts r) q.catcher q (Reach-HasStopped r o i)

-- An agent that has started and whose REST service listens stops only when it is told to, and cleans
-- up first. In every run from such a state, in which nothing is being stopped yet, `Wait` returns
-- only after an interrupt, and then there is no file at the socket's address, if `os.Remove` works.
pub Reach-stopped :
    (socket removable : Bool) {p q : Process}
    → Reach (started socket removable) p
    → IsIdle p
    → (r : Reach p q) → ends_well q.main ≡ true
    → (0 < interrupts r) × (q.socket ≡ false)
Reach-stopped socket removable {p} {q} before i r e =
    let o = Reach-IsOrderly before (started-IsOrderly socket removable) in
    let o' = Reach-IsOrderly r o in
    let h = Reach-HasStopped r o i in
    (ground (arith, o'.let_go, h.asked), ground (arith, o'.let_go, h.cleaned))
