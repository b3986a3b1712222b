-- ===== src/Timers/Tests.antt =====
-- A run of a timer that counts.
use p2p_update.Common.{ℕ, ◌+◌, ◌≤◌, ◌≡◌, ◌≢◌, refl, true, false}
use p2p_update.Timers.{
  Timer, finished, exec_every, selecting, run, return, stop, Reach, here, next, tick, close,
}
use p2p_update.Timers.Executing.{iterate, count_due, at_most, ticks, Reach-executes}

abbrev counting : ℕ → ℕ
counting n = n + 1

abbrev started : Timer ℕ
started = record { value = 3; phase = selecting; due = false; closed = false }

exec_every_runs : exec_every 3 ≡ started
unfolding exec_every
exec_every_runs = refl

abbrev ended : Timer ℕ
ended = record { value = 4; phase = finished; due = false; closed = true }

not_finished : selecting ≢ finished
not_finished e = cc

-- Two ticks, of which one is lost.
abbrev two_ticks : Reach counting started ended
two_ticks =
    next
      (close (
        next (next (tick (tick here not_finished) not_finished) (run _ refl refl)) (return _ refl)))
      (stop _ refl refl)

Reach-executes_example :
    (k : ℕ) × (4 ≡ iterate counting k 3)
    × (k ≤ at_most selecting (ticks counting two_ticks + count_due false))
Reach-executes_example = Reach-executes counting two_ticks
