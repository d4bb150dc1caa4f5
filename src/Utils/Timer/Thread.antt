-- ===== src/Utils/Timer/Thread.antt =====
-- The thread of Timer (src/utils/timer.cpp) with its waits: what is done under the mutex is one step,
-- and so is a callback, which is called without it.
use chatroom_server.Prelude.{
  ℕ, Bool, true, false, not, ◌||◌, List, [], ◌∷◌, Option, none, some, if◌then◌else◌, leb,
}
use chatroom_server.Utils.Timer.{
  TimerTask, Timer, timer, add_once_task, add_periodic_task, start, stop, pop_top, take_task,
  call_back,
}

-- `timerThread_`: none, at the test of its loop, without the mutex before a callback, in `wait`, in `wait_until` for a
-- task, at its end. `terminated` is `std::terminate`.
pub data Thread {ℓ} (C : Type ℓ) : Type ℓ where
  absent : Thread C
  looping : Thread C
  calling : TimerTask C → Thread C
  asleep : Thread C
  asleep_until : TimerTask C → Thread C
  ended : Thread C
  terminated : Thread C

pub record TimerState {ℓ} (C : Type ℓ) : Type ℓ where
  pub timer : Timer C
  pub thread : Thread C

module _ {ℓ} {C : Type ℓ} where
  unfoldable pub initial : TimerState C
  initial = record { timer = timer; thread = absent }

  -- The condition of `wait`.
  abbrev pub some_task : Option (TimerTask C × List (TimerTask C)) → Bool
  some_task none = false
  some_task (some t) = true

  unfoldable pub may_go_on : Timer C → Bool
  may_go_on t = some_task (pop_top t.task_queue) || not t.running

  -- The condition of `wait_until`, for the task that was at the top before it.
  abbrev pub no_later : TimerTask C → Option (TimerTask C × List (TimerTask C)) → Bool
  no_later next none = false
  no_later next (some (u, rest)) = leb u.exec_timestamp next.exec_timestamp

  unfoldable pub may_leave : TimerTask C → Timer C → Bool
  may_leave next t = not t.running || no_later next (pop_top t.task_queue)

  -- A notification, or a wake-up without one: the condition is tested again.
  unfoldable pub wake : Timer C → Thread C → Thread C
  wake t absent = absent
  wake t looping = looping
  wake t (calling task) = calling task
  wake t asleep = if may_go_on t then looping else asleep
  wake t (asleep_until next) = if may_leave next t then looping else asleep_until next
  wake t ended = ended
  wake t terminated = terminated

  -- The body of the loop at the time `now`.
  unfoldable pub body : ℕ → Option (TimerTask C × List (TimerTask C)) → TimerState C → TimerState C
  body now none s = record s { thread = if may_go_on s.timer then looping else asleep }
  body now (some (next, rest)) s =
      if leb next.exec_timestamp now
      then record { timer = take_task next rest s.timer; thread = calling next }
      else record s { thread = if may_leave next s.timer then looping else asleep_until next }

  -- The next step of the thread at the time `now`; `wait_until` ends at its time.
  unfoldable pub advance : ℕ → Thread C → TimerState C → TimerState C
  advance now absent s = s
  advance now looping s =
      if s.timer.running
      then body now (pop_top s.timer.task_queue) s
      else record s { thread = ended }
  advance now (calling task) s = record { timer = call_back task s.timer; thread = looping }
  advance now asleep s = s
  advance now (asleep_until next) s = record s {
    thread = if leb next.exec_timestamp now then looping else asleep_until next;
  }
  advance now ended s = s
  advance now terminated s = s

  abbrev pub notified : Timer C → TimerState C → TimerState C
  notified t s = record { timer = t; thread = wake t s.thread }

  -- `start`: a `std::thread` is assigned to `timerThread_`, which terminates the program if that
  -- is still joinable.
  abbrev pub begun : Thread C → Thread C
  begun absent = looping
  begun _ = terminated

  unfoldable pub start_thread : TimerState C → TimerState C
  start_thread s =
      if s.timer.running then s else record { timer = start s.timer; thread = begun s.thread }

  -- The return of `join`, when the thread has ended.
  abbrev pub joined : Thread C → Thread C
  joined ended = absent
  joined p = p

-- A call of `addOnceTask`, `addPeriodicTask`, `start`, of `stop` up to its `join`, the return of that,
-- a step of the thread, or a wake-up without a notification.
pub data Action {ℓ} (C : Type ℓ) : Type ℓ where
  added_once : ℕ → ℕ → C → Action C
  added_periodic : ℕ → ℕ → ℕ → C → Action C
  started : Action C
  stopped : Action C
  returned : Action C
  advanced : ℕ → Action C
  spurious : Action C

module _ {ℓ} {C : Type ℓ} where
  unfoldable pub act : Action C → TimerState C → TimerState C
  act (added_once now delay callback) s = notified (add_once_task now delay callback s.timer) s
  act (added_periodic now delay period callback) s =
      notified (add_periodic_task now delay period callback s.timer) s
  act started s = start_thread s
  act stopped s = notified (stop s.timer) s
  act returned s = record s { thread = joined s.thread }
  act (advanced now) s = advance now s.thread s
  act spurious s = notified s.timer s

  unfoldable pub acts : List (Action C) → TimerState C → TimerState C
  acts [] s = s
  acts (a ∷ more) s = acts more (act a s)
