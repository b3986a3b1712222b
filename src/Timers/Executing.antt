-- ===== src/Timers/Executing.antt =====
-- How often ExecEvery (common.go) runs its function, and that it ends.
use p2p_update.Common.{ℕ, zero, suc, ◌+◌, ◌≤◌, ◌≡◌, refl, ap, Bool, true, false, arith}
use p2p_update.Timers.{
  Phase, selecting, executing, finished, Timer, Step, run, return, stop, Reach, here, next, tick,
  close, send,
}

-- k runs of a function
abbrev pub iterate : {S : Type 0} → (S → S) → ℕ → S → S
iterate f zero v = v
iterate f (suc k) v = f (iterate f k v)

abbrev pub count_due : Bool → ℕ
count_due true = 1
count_due false = 0

-- How often the function may still run: not at all after the goroutine has returned.
abbrev pub at_most : Phase → ℕ → ℕ
at_most finished n = 0
at_most _ n = n

module _ {S : Type 0} (f : S → S) where
  -- The ticks of a run.
  abbrev pub ticks : {t u : Timer S} → Reach f t u → ℕ
  ticks here = 0
  ticks (next r step) = ticks r
  ticks (tick r e) = suc (ticks r)
  ticks (close r) = ticks r
  ticks (send r e) = ticks r

  -- What a run from `t` has done when it is at `u`.
  record Executed (t u : Timer S) (n : ℕ) : Type 0 where
    times : ℕ
    iterated : u.value ≡ iterate f times t.value
    counted : times + count_due u.due ≤ n + count_due t.due
    over : t.phase ≡ finished → (times ≡ 0) × (u.phase ≡ finished)

  Step-Executed :
      (t : Timer S) (n : ℕ) {u v : Timer S} → Step f u v → Executed t u n → Executed t v n
  Step-Executed t n (run u p d) h = record {
    times = suc h.times;
    iterated = ap f h.iterated;
    counted = ground (arith, h.counted);
    over = λ e. absurd (ground (arith, h.over e));
  }
  Step-Executed t n (return u p) h = record {
    times = h.times;
    iterated = h.iterated;
    counted = h.counted;
    over = λ e. absurd (ground (arith, h.over e));
  }
  Step-Executed t n (stop u p c) h = record {
    times = h.times;
    iterated = h.iterated;
    counted = h.counted;
    over = λ e. ((h.over e).0, refl);
  }

  due-le : (d : Bool) → count_due d ≤ 1
  due-le true = omega arith
  due-le false = omega arith

  Reach-Executed : {t u : Timer S} (r : Reach f t u) → Executed t u (ticks r)
  Reach-Executed {t} here = record {
    times = 0;
    iterated = refl;
    counted = omega arith;
    over = λ e. (refl, e);
  }
  Reach-Executed {t} (next r step) = Step-Executed t (ticks r) step (Reach-Executed r)
  Reach-Executed (tick {u = u} r e) =
      let h = Reach-Executed r in
      record {
        times = h.times;
        iterated = h.iterated;
        counted = omega (arith, h.counted);
        over = h.over;
      }
  Reach-Executed (close r) =
      let h = Reach-Executed r in
      record { times = h.times; iterated = h.iterated; counted = h.counted; over = h.over }
  Reach-Executed (send r e) =
      let h = Reach-Executed r in
      record {
        times = h.times;
        iterated = h.iterated;
        counted = h.counted;
        over = λ p. ((h.over p).0, refl);
      }

  -- Between any two states of the timer, the earlier of which leads to the later, the function has
  -- run a number of times, one after the other, on the value: at most once for each tick in between
  -- and for one that was in the channel, and not at all after the goroutine has returned.
  pub Reach-executes :
      {t u : Timer S} (r : Reach f t u)
      → (k : ℕ) × (u.value ≡ iterate f k t.value)
        × (k ≤ at_most t.phase (ticks r + count_due t.due))
  Reach-executes {t} r =
      let h = Reach-Executed r in
      (
        h.times,
        h.iterated,
        bounded t.phase h.times _ (omega (arith, h.counted)) (λ e. (h.over e).0),
      )
    where
      bounded : (p : Phase) (k n : ℕ) → k ≤ n → (p ≡ finished → k ≡ 0) → k ≤ at_most p n
      bounded selecting k n le none_left = le
      bounded executing k n le none_left = le
      bounded finished k n le none_left = omega (arith, none_left refl)
