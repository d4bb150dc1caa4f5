-- ===== src/Utils/Timer/Stopping.antt =====
-- The end of the thread of Timer (src/utils/timer.cpp).
use chatroom_server.Prelude.{
  ℕ, ◌+◌, ◌-◌, ◌≤◌, ◌≡◌, ◌≢◌, refl, sym, ap, subst, ◌∙◌, true, false, List, [], ◌∷◌, of_if, All,
  arith,
}
use chatroom_server.Utils.Timer.{
  TimerTask, Timer, add_once_task, add_periodic_task, stop, call_back,
}
use chatroom_server.Utils.Timer.Thread.{
  Thread, TimerState, absent, looping, calling, asleep, asleep_until, ended, terminated, initial,
  may_go_on, may_leave, wake, advance, notified, joined, Action, added_once, added_periodic,
  started, stopped, returned, advanced, spurious, act, acts,
}
use chatroom_server.Utils.Timer.Sleeping.{initial-IsWakeful}

module _ {ℓ} {C : Type ℓ} where
  -- `start` is not called again.
  abbrev pub IsFinal : Action C → Type 0
  IsFinal started = ⊥
  IsFinal _ = Unit

  -- One for a step of the thread.
  abbrev pub turn : Action C → ℕ
  turn (advanced now) = 1
  turn _ = 0

  unfoldable pub turns : List (Action C) → ℕ
  turns [] = 0
  turns (a ∷ more) = turn a + turns more

  -- The thread has ended, and perhaps was joined.
  abbrev pub IsOver : Thread C → Type 0
  IsOver absent = Unit
  IsOver looping = ⊥
  IsOver (calling task) = ⊥
  IsOver asleep = ⊥
  IsOver (asleep_until next) = ⊥
  IsOver ended = Unit
  IsOver terminated = ⊥

  -- How many steps the thread of a stopped timer takes until it ends, if it does not sleep.
  abbrev pub steps_left : Thread C → ℕ
  steps_left looping = 1
  steps_left (calling task) = 2
  steps_left _ = 0

  -- The thread does not sleep, and the program goes on.
  abbrev pub IsAwake : Thread C → Type 0
  IsAwake absent = Unit
  IsAwake looping = Unit
  IsAwake (calling task) = Unit
  IsAwake asleep = ⊥
  IsAwake (asleep_until next) = ⊥
  IsAwake ended = Unit
  IsAwake terminated = ⊥

  -- The calls, with that of the task that the thread has taken out of the queue.
  abbrev pub with_taken : Thread C → List (TimerTask C) → List (TimerTask C)
  with_taken (calling task) calls = task ∷ calls
  with_taken _ calls = calls

  -- From a stopped timer on, with a number of steps of the thread.
  record Goes (k : ℕ) (s t : TimerState C) : Type ℓ where
    still_stopped : t.timer.running ≡ false
    taken_called : with_taken t.thread t.timer.called ≡ with_taken s.thread s.timer.called
    still_awake : IsAwake t.thread
    nearer : steps_left t.thread ≤ steps_left s.thread - k

  wake-awake : (t : Timer C) (p : Thread C) → IsAwake p → wake t p ≡ p
  unfolding wake
  wake-awake t absent h = refl
  wake-awake t looping h = refl
  wake-awake t (calling task) h = refl
  wake-awake t asleep h = absurd h
  wake-awake t (asleep_until next) h = absurd h
  wake-awake t ended h = refl
  wake-awake t terminated h = absurd h

  notified-Goes :
      (t : Timer C) (s : TimerState C)
      → t.running ≡ false
      → t.called ≡ s.timer.called
      → IsAwake s.thread
      → Goes 0 s (notified t s)
  notified-Goes t s e f h = rw (wake-awake t s.thread h) (record {
    still_stopped = e;
    taken_called = ap (with_taken s.thread) f;
    still_awake = h;
    nearer = omega arith;
  })

  stays :
      (p : Thread C) (s : TimerState C)
      → s.thread ≡ p
      → s.timer.running ≡ false
      → IsAwake p
      → steps_left p ≡ 0
      → Goes 1 s s
  stays p s e f h z = record {
    still_stopped = f;
    taken_called = refl;
    still_awake = subst IsAwake (sym e) h;
    nearer = omega (arith, ap steps_left e, z);
  }

  advance-Goes :
      (now : ℕ) (p : Thread C) (s : TimerState C)
      → s.thread ≡ p
      → s.timer.running ≡ false
      → IsAwake p
      → Goes 1 s (advance now p s)
  unfolding advance call_back
  advance-Goes now absent s e f h = stays absent s e f tt refl
  advance-Goes now looping s e f h =
      of_if (Goes 1 s) s.timer.running _ (record s { thread = ended }) (λ y. ground (arith, y, f))
        (λ y. record {
          still_stopped = f;
          taken_called = ap (λ q. with_taken q s.timer.called) (sym e);
          still_awake = tt;
          nearer = omega (arith, ap steps_left e);
        })
  advance-Goes now (calling task) s e f h = record {
    still_stopped = f;
    taken_called = ap (λ q. with_taken q s.timer.called) (sym e);
    still_awake = tt;
    nearer = omega (arith, ap steps_left e);
  }
  advance-Goes now asleep s e f h = absurd h
  advance-Goes now (asleep_until next) s e f h = absurd h
  advance-Goes now ended s e f h = stays ended s e f tt refl
  advance-Goes now terminated s e f h = absurd h

  joined-Goes :
      (p : Thread C) (s : TimerState C)
      → s.thread ≡ p
      → s.timer.running ≡ false
      → IsAwake p
      → Goes 0 s (record s { thread = joined p })
  joined-Goes absent s e f h = record {
    still_stopped = f;
    taken_called = ap (λ q. with_taken q s.timer.called) (sym e);
    still_awake = tt;
    nearer = omega arith;
  }
  joined-Goes looping s e f h = record {
    still_stopped = f;
    taken_called = ap (λ q. with_taken q s.timer.called) (sym e);
    still_awake = tt;
    nearer = omega (arith, ap steps_left e);
  }
  joined-Goes (calling task) s e f h = record {
    still_stopped = f;
    taken_called = ap (λ q. with_taken q s.timer.called) (sym e);
    still_awake = tt;
    nearer = omega (arith, ap steps_left e);
  }
  joined-Goes asleep s e f h = absurd h
  joined-Goes (asleep_until next) s e f h = absurd h
  joined-Goes ended s e f h = record {
    still_stopped = f;
    taken_called = ap (λ q. with_taken q s.timer.called) (sym e);
    still_awake = tt;
    nearer = omega arith;
  }
  joined-Goes terminated s e f h = absurd h

  act-Goes :
      (a : Action C) (s : TimerState C)
      → IsFinal a
      → s.timer.running ≡ false
      → IsAwake s.thread
      → Goes (turn a) s (act a s)
  unfolding act add_once_task add_periodic_task stop
  act-Goes (added_once now delay callback) s q f h = notified-Goes _ s f refl h
  act-Goes (added_periodic now delay period callback) s q f h = notified-Goes _ s f refl h
  act-Goes started s q f h = absurd q
  act-Goes stopped s q f h = notified-Goes _ s refl refl h
  act-Goes returned s q f h = joined-Goes s.thread s refl f h
  act-Goes (advanced now) s q f h = advance-Goes now s.thread s refl f h
  act-Goes spurious s q f h = notified-Goes s.timer s f refl h

  over-taken : (p : Thread C) (calls : List (TimerTask C)) → IsOver p → with_taken p calls ≡ calls
  over-taken absent calls h = refl
  over-taken looping calls h = absurd h
  over-taken (calling task) calls h = absurd h
  over-taken asleep calls h = refl
  over-taken (asleep_until next) calls h = refl
  over-taken ended calls h = refl
  over-taken terminated calls h = refl

  over : (p : Thread C) → IsAwake p → steps_left p ≤ 0 → IsOver p
  over absent h e = tt
  over looping h e = absurd (omega arith)
  over (calling task) h e = absurd (omega arith)
  over asleep h e = h
  over (asleep_until next) h e = h
  over ended h e = tt
  over terminated h e = h

  acts-IsOver :
      (more : List (Action C)) (s : TimerState C)
      → All IsFinal more
      → s.timer.running ≡ false
      → IsAwake s.thread
      → steps_left s.thread ≤ turns more
      → IsOver (acts more s).thread
        × ((acts more s).timer.called ≡ with_taken s.thread s.timer.called)
  unfolding acts turns
  acts-IsOver [] s q f h e =
      let done = over s.thread h e in (done, sym (over-taken s.thread s.timer.called done))
  acts-IsOver (a ∷ more) s (q, qs) f h e =
      let g = act-Goes a s q f h in
      let (done, same) =
        acts-IsOver more (act a s) qs g.still_stopped g.still_awake (omega (arith, g.nearer)) in
      (done, same ∙ g.taken_called)

  -- `stop` wakes the thread up, if it sleeps.
  wake-stopped :
      (t : Timer C) (p : Thread C)
      → t.running ≡ false
      → ((next : TimerTask C) → p ≢ asleep_until next)
      → p ≢ terminated
      → IsAwake (wake t p) × (steps_left (wake t p) ≤ 2)
  unfolding wake may_go_on
  wake-stopped t absent f h n = (tt, omega arith)
  wake-stopped t looping f h n = (tt, omega arith)
  wake-stopped t (calling task) f h n = (tt, omega arith)
  wake-stopped t asleep f h n =
      let goes_on : may_go_on t ≡ true = ground (arith, f) in rw goes_on (tt, omega arith)
  wake-stopped t (asleep_until next) f h n = absurd (h next refl)
  wake-stopped t ended f h n = (tt, omega arith)
  wake-stopped t terminated f h n = absurd (n refl)

  wake-taken :
      (t : Timer C) (p : Thread C) (calls : List (TimerTask C))
      → with_taken (wake t p) calls ≡ with_taken p calls
  unfolding wake
  wake-taken t absent calls = refl
  wake-taken t looping calls = refl
  wake-taken t (calling task) calls = refl
  wake-taken t asleep calls =
      of_if (λ p. with_taken p calls ≡ calls) (may_go_on t) looping asleep (λ e. refl) (λ e. refl)
  wake-taken t (asleep_until next) calls =
      of_if (λ p. with_taken p calls ≡ calls) (may_leave next t) looping (asleep_until next)
        (λ e. refl) (λ e. refl)
  wake-taken t ended calls = refl
  wake-taken t terminated calls = refl

  -- `stop` ends the thread: after any actions from a new timer that did not terminate the program,
  -- after `stop`, and after any further actions but `start`, among them two steps of the thread, the
  -- thread has ended, and since `stop` only the callback of the task was called that the thread had
  -- taken out of the queue before, if there was one.
  pub acts-stopped :
      (before more : List (Action C))
      → (acts before initial).thread ≢ terminated
      → All IsFinal more
      → 2 ≤ turns more
      → let s = acts before initial in
        IsOver (acts more (act stopped s)).thread
        × ((acts more (act stopped s)).timer.called ≡ with_taken s.thread s.timer.called)
  unfolding act stop
  acts-stopped before more n q e =
      let s = acts before initial in
      let h = initial-IsWakeful before in
      let (awake, few) = wake-stopped (stop s.timer) s.thread refl h.no_time n in
      let (done, calls) = acts-IsOver more (act stopped s) q refl awake (omega arith) in
      (done, calls ∙ wake-taken (stop s.timer) s.thread s.timer.called)
