-- ===== src/Timers.antt =====
-- ExecEvery (common.go): a goroutine that runs a function at each tick of a timer until its channel is
-- closed, or until the overlay sends on it. The timer's channel has one place, and a tick that finds it full is lost. The server runs
-- its snapshots and advertisements, and the overlay its keep-alive packets, by it.
use p2p_update.Common.{ℕ, zero, suc, ◌≡◌, ◌≢◌, Bool, true, false}
pub mod Executing
mod Tests

-- The goroutine at its `select`, in `f`, and after its return.
pub data Phase : Type 0 where
  selecting executing finished : Phase

-- `value` is what `f` works on, `due` tells that a tick is in the channel, and `closed` that the
-- channel which ExecEvery returned is closed.
pub record Timer (S : Type 0) : Type 0 where
  pub value : S
  pub phase : Phase
  pub due : Bool
  pub closed : Bool

unfoldable pub exec_every : {S : Type 0} → S → Timer S
exec_every v = record { value = v; phase = selecting; due = false; closed = false }

module _ {S : Type 0} (f : S → S) where
  -- `select` takes either case where both are ready.
  pub data Step : Timer S → Timer S → Type 0 where
    run :
        (t : Timer S)
        → t.phase ≡ selecting
        → t.due ≡ true
        → Step t (record t { value = f t.value; phase = executing; due = false })
    return : (t : Timer S) → t.phase ≡ executing → Step t (record t { phase = selecting })
    stop :
        (t : Timer S)
        → t.phase ≡ selecting
        → t.closed ≡ true
        → Step t (record t { phase = finished })

  -- A run of the goroutine, with the ticks, the closing of its channel, and a send on it, which waits
  -- for the goroutine to receive. After `Stop` the timer does not tick.
  pub data Reach (t : Timer S) : Timer S → Type 0 where
    here : Reach t t
    next : {u v : Timer S} → Reach t u → Step u v → Reach t v
    tick : {u : Timer S} → Reach t u → u.phase ≢ finished → Reach t (record u { due = true })
    close : {u : Timer S} → Reach t u → Reach t (record u { closed = true })
    send : {u : Timer S} → Reach t u → u.phase ≡ selecting → Reach t (record u { phase = finished })
