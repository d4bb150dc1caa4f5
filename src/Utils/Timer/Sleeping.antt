-- ===== src/Utils/Timer/Sleeping.antt =====
-- When the thread of Timer (src/utils/timer.cpp) sleeps.
use chatroom_server.Prelude.{
  ℕ, ◌≡◌, ◌≢◌, refl, true, false, List, [], ◌∷◌, Option, none, some, Option-cases, of_if,
  Bool-cases, inl, inr, if◌then◌else◌, leb, arith,
}
use chatroom_server.Utils.Timer.{TimerTask, Timer, timer, start, pop_top, take_task, call_back}
use chatroom_server.Utils.Timer.Thread.{
  Thread, TimerState, absent, looping, calling, asleep, asleep_until, ended, terminated, initial,
  may_go_on, may_leave, wake, body, advance, begun, start_thread, joined, Action, added_once,
  added_periodic, started, stopped, returned, advanced, spurious, act, acts,
}

module _ {ℓ} {C : Type ℓ} where
  -- The thread sleeps only while the timer runs without any task, and never until a time.
  pub record IsWakeful (s : TimerState C) : Type ℓ where
    pub no_task : s.thread ≡ asleep → (s.timer.task_queue ≡ []) × (s.timer.running ≡ true)
    pub no_time : (next : TimerTask C) → s.thread ≢ asleep_until next

  pop_top-none : (ts : List (TimerTask C)) → pop_top ts ≡ none → ts ≡ []
  unfolding pop_top
  pop_top-none [] e = refl
  pop_top-none (t ∷ ts) e = elim (Option-cases (pop_top ts)) [
    | inl n ↦ ground (arith, e, n)
    | inr (left, q) ↦ ground (arith, e, q)
  ]

  may_go_on-false : (t : Timer C) → may_go_on t ≡ false → (t.task_queue ≡ []) × (t.running ≡ true)
  unfolding may_go_on
  may_go_on-false t e = elim (Option-cases (pop_top t.task_queue)) [
    | inl n ↦ (pop_top-none t.task_queue n, ground (arith, e, n))
    | inr (left, q) ↦ ground (arith, e, q)
  ]

  -- The thread waits in `wait` for its condition.
  waits-IsWakeful :
      (t : Timer C)
      → IsWakeful (record { timer = t; thread = if may_go_on t then looping else asleep })
  waits-IsWakeful t = elim (Bool-cases (may_go_on t)) [
    | inl y ↦
        rw y (record { no_task = λ e. ground (arith, e); no_time = λ next e. ground (arith, e) })
    | inr y ↦
        rw y (record { no_task = λ e. may_go_on-false t y; no_time = λ next e. ground (arith, e) })
  ]

  awake :
      (t : Timer C) (p : Thread C)
      → p ≢ asleep
      → ((next : TimerTask C) → p ≢ asleep_until next)
      → IsWakeful (record { timer = t; thread = p })
  awake t p a b = record { no_task = λ e. absurd (a e); no_time = b }

  wake-IsWakeful :
      (t : Timer C) (p : Thread C)
      → ((next : TimerTask C) → p ≢ asleep_until next)
      → IsWakeful (record { timer = t; thread = wake t p })
  unfolding wake
  wake-IsWakeful t absent h = awake t absent (λ e. ground (arith, e)) h
  wake-IsWakeful t looping h = awake t looping (λ e. ground (arith, e)) h
  wake-IsWakeful t (calling task) h = awake t (calling task) (λ e. ground (arith, e)) h
  wake-IsWakeful t asleep h = waits-IsWakeful t
  wake-IsWakeful t (asleep_until next) h = absurd (h next refl)
  wake-IsWakeful t ended h = awake t ended (λ e. ground (arith, e)) h
  wake-IsWakeful t terminated h = awake t terminated (λ e. ground (arith, e)) h

  -- The condition of `wait_until` holds before the wait: the task at the top is the one for which
  -- the thread would wait.
  may_leave-top :
      (next : TimerTask C) (rest : List (TimerTask C)) (t : Timer C)
      → pop_top t.task_queue ≡ some (next, rest)
      → may_leave next t ≡ true
  unfolding may_leave
  may_leave-top next rest t e = ground (arith, e)

  body-IsWakeful :
      (now : ℕ) (o : Option (TimerTask C × List (TimerTask C))) (s : TimerState C)
      → pop_top s.timer.task_queue ≡ o
      → IsWakeful (body now o s)
  unfolding body
  body-IsWakeful now none s e = waits-IsWakeful s.timer
  body-IsWakeful now (some (next, rest)) s e = elim (Bool-cases (leb next.exec_timestamp now)) [
    | inl y ↦ rw y (
        awake (take_task next rest s.timer) (calling next) (λ q. ground (arith, q))
          (λ u q. ground (arith, q)))
    | inr y ↦
        rw (y, may_leave-top next rest s.timer e)
          (awake s.timer looping (λ q. ground (arith, q)) (λ u q. ground (arith, q)))
  ]

  advance-IsWakeful :
      (now : ℕ) (p : Thread C) (s : TimerState C)
      → s.thread ≡ p
      → IsWakeful s
      → IsWakeful (advance now p s)
  unfolding advance
  advance-IsWakeful now absent s e h = h
  advance-IsWakeful now looping s e h =
      of_if IsWakeful s.timer.running (body now (pop_top s.timer.task_queue) s)
        (record s { thread = ended }) (λ y. body-IsWakeful now (pop_top s.timer.task_queue) s refl)
        (λ y. awake s.timer ended (λ q. ground (arith, q)) (λ u q. ground (arith, q)))
  advance-IsWakeful now (calling task) s e h =
      awake (call_back task s.timer) looping (λ q. ground (arith, q)) (λ u q. ground (arith, q))
  advance-IsWakeful now asleep s e h = h
  advance-IsWakeful now (asleep_until next) s e h = absurd (h.no_time next e)
  advance-IsWakeful now ended s e h = h
  advance-IsWakeful now terminated s e h = h

  begun-awake :
      (p : Thread C) → (begun p ≢ asleep) × ((next : TimerTask C) → begun p ≢ asleep_until next)
  begun-awake absent = (λ e. ground (arith, e), λ u e. ground (arith, e))
  begun-awake looping = (λ e. ground (arith, e), λ u e. ground (arith, e))
  begun-awake (calling task) = (λ e. ground (arith, e), λ u e. ground (arith, e))
  begun-awake asleep = (λ e. ground (arith, e), λ u e. ground (arith, e))
  begun-awake (asleep_until next) = (λ e. ground (arith, e), λ u e. ground (arith, e))
  begun-awake ended = (λ e. ground (arith, e), λ u e. ground (arith, e))
  begun-awake terminated = (λ e. ground (arith, e), λ u e. ground (arith, e))

  start_thread-IsWakeful : (s : TimerState C) → IsWakeful s → IsWakeful (start_thread s)
  unfolding start_thread
  start_thread-IsWakeful s h =
      let (a, b) = begun-awake s.thread in
      of_if IsWakeful s.timer.running s (record { timer = start s.timer; thread = begun s.thread })
        (λ y. h) (λ y. awake (start s.timer) (begun s.thread) a b)

  joined-IsWakeful :
      (t : Timer C) (p : Thread C)
      → IsWakeful (record { timer = t; thread = p })
      → IsWakeful (record { timer = t; thread = joined p })
  joined-IsWakeful t absent h = h
  joined-IsWakeful t looping h = h
  joined-IsWakeful t (calling task) h = h
  joined-IsWakeful t asleep h = h
  joined-IsWakeful t (asleep_until next) h = h
  joined-IsWakeful t ended h = awake t absent (λ q. ground (arith, q)) (λ u q. ground (arith, q))
  joined-IsWakeful t terminated h = h

  act-IsWakeful : (a : Action C) (s : TimerState C) → IsWakeful s → IsWakeful (act a s)
  unfolding act
  act-IsWakeful (added_once now delay callback) s h = wake-IsWakeful _ s.thread h.no_time
  act-IsWakeful (added_periodic now delay period callback) s h = wake-IsWakeful _ s.thread h.no_time
  act-IsWakeful started s h = start_thread-IsWakeful s h
  act-IsWakeful stopped s h = wake-IsWakeful _ s.thread h.no_time
  act-IsWakeful returned s h =
      joined-IsWakeful s.timer s.thread (record { no_task = h.no_task; no_time = h.no_time })
  act-IsWakeful (advanced now) s h = advance-IsWakeful now s.thread s refl h
  act-IsWakeful spurious s h = wake-IsWakeful s.timer s.thread h.no_time

  acts-IsWakeful :
      (more : List (Action C)) (s : TimerState C) → IsWakeful s → IsWakeful (acts more s)
  unfolding acts
  acts-IsWakeful [] s h = h
  acts-IsWakeful (a ∷ more) s h = acts-IsWakeful more (act a s) (act-IsWakeful a s h)

  begins-IsWakeful : IsWakeful initial
  unfolding initial
  begins-IsWakeful = awake timer absent (λ q. ground (arith, q)) (λ u q. ground (arith, q))

  -- From a new timer, after any actions in any order, the thread sleeps only while the timer runs
  -- and has no task: a task that is added or `stop` wakes it up, and it never sleeps until the time
  -- of its next task, since the condition of that wait holds at once.
  pub initial-IsWakeful : (more : List (Action C)) → IsWakeful (acts more initial)
  initial-IsWakeful more = acts-IsWakeful more initial begins-IsWakeful
