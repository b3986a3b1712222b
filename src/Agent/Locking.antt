-- ===== src/Agent/Locking.antt =====
-- The mutex of an update (update.go) between its monitor and a caller of Stop and then Delete
-- (`Start` of a newer update, or a DELETE request), as interleaved steps. The monitor leaves its
-- loop by a `break` that stands between Lock and Unlock.
use p2p_update.Common.{◌≡◌, Bool, true, false, arith}

pub data Holder : Type 0 where
  free caller monitor : Holder

-- Stop and Delete lock the update on entry and unlock it on return.
pub data CallerAt : Type 0 where
  before_stop in_stop before_delete in_delete returned : CallerAt

pub data MonitorAt : Type 0 where
  sleeping checking exited : MonitorAt

pub record Threads : Type 0 where
  pub stopped : Bool
  pub lock : Holder
  pub caller_at : CallerAt
  pub monitor_at : MonitorAt

abbrev pub running : Threads
running = record { stopped = false; lock = free; caller_at = before_stop; monitor_at = sleeping }

pub data Step : Threads → Threads → Type 0 where
  lock_stop :
      (t : Threads)
      → t.caller_at ≡ before_stop
      → t.lock ≡ free
      → Step t (record t { caller_at = in_stop; lock = caller })
  unlock_stop :
      (t : Threads)
      → t.caller_at ≡ in_stop
      → Step t (record t { caller_at = before_delete; lock = free; stopped = true })
  lock_delete :
      (t : Threads)
      → t.caller_at ≡ before_delete
      → t.lock ≡ free
      → Step t (record t { caller_at = in_delete; lock = caller })
  unlock_delete :
      (t : Threads)
      → t.caller_at ≡ in_delete
      → Step t (record t { caller_at = returned; lock = free })
  wake :
      (t : Threads)
      → t.monitor_at ≡ sleeping
      → t.lock ≡ free
      → Step t (record t { monitor_at = checking; lock = monitor })
  break_loop :
      (t : Threads)
      → t.monitor_at ≡ checking
      → t.stopped ≡ true
      → Step t (record t { monitor_at = exited })
  next_round :
      (t : Threads)
      → t.monitor_at ≡ checking
      → t.stopped ≡ false
      → Step t (record t { monitor_at = sleeping; lock = free })

pub data Reach (s : Threads) : Threads → Type 0 where
  here : Reach s s
  next : {t u : Threads} → Reach s t → Step t u → Reach s u

-- The lock is held by the thread that is inside, and by an exited monitor for good.
pub record IsLocked (t : Threads) : Type 0 where
  pub by_stop : t.caller_at ≡ in_stop → t.lock ≡ caller
  pub by_delete : t.caller_at ≡ in_delete → t.lock ≡ caller
  pub by_check : t.monitor_at ≡ checking → t.lock ≡ monitor
  pub by_exit : t.monitor_at ≡ exited → t.lock ≡ monitor

Step-IsLocked : {t u : Threads} → Step t u → IsLocked t → IsLocked u
Step-IsLocked (lock_stop t p q) i = ground arith
Step-IsLocked (unlock_stop t p) i = ground arith
Step-IsLocked (lock_delete t p q) i = ground arith
Step-IsLocked (unlock_delete t p) i = ground arith
Step-IsLocked (wake t p q) i = ground arith
Step-IsLocked (break_loop t p q) i = ground arith
Step-IsLocked (next_round t p q) i = ground arith

Reach-IsLocked : {t : Threads} → Reach running t → IsLocked t
Reach-IsLocked here = ground arith
Reach-IsLocked (next r s) = Step-IsLocked s (Reach-IsLocked r)

exited_stuck : {t u : Threads} → Step t u → IsLocked t → t.monitor_at ≡ exited → ⊥
exited_stuck (lock_stop t p q) i e = ground arith
exited_stuck (unlock_stop t p) i e = ground arith
exited_stuck (lock_delete t p q) i e = ground arith
exited_stuck (unlock_delete t p) i e = ground arith
exited_stuck (wake t p q) i e = ground arith
exited_stuck (break_loop t p q) i e = ground arith
exited_stuck (next_round t p q) i e = ground arith

-- In every state that the two threads reach in which the monitor has left its loop, it still holds
-- the lock, and no step is possible any more: a caller that has not returned from Delete by then
-- never will.
pub exited_blocks :
    {t : Threads}
    → Reach running t
    → t.monitor_at ≡ exited
    → (t.lock ≡ monitor) × ((u : Threads) → ¬ Step t u)
exited_blocks r e = ((Reach-IsLocked r).by_exit e, λ u s. exited_stuck s (Reach-IsLocked r) e)
