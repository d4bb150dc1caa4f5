-- ===== src/Utils/Timer.antt =====
-- Timer (src/utils/timer.cpp, src/utils/timer.hpp). The priority queue is a list; of tasks with the
-- same time `top` may return any, and here it returns the first.
pub mod Thread
pub mod Sleeping
pub mod Stopping
use chatroom_server.Prelude.{
  ℕ, ◌+◌, Bool, true, false, List, [], ◌∷◌, Option, none, some, if◌then◌else◌, leb,
}

pub record TimerTask {ℓ} (C : Type ℓ) : Type ℓ where
  pub exec_timestamp : ℕ
  pub callback : C
  pub is_periodic : Bool
  pub period : ℕ

-- The members, and the tasks whose callbacks were called, latest first.
pub record Timer {ℓ} (C : Type ℓ) : Type ℓ where
  pub task_queue : List (TimerTask C)
  pub running : Bool
  pub called : List (TimerTask C)

module _ {ℓ} {C : Type ℓ} where
  -- The constructor.
  unfoldable pub timer : Timer C
  timer = record { task_queue = []; running = false; called = [] }

  -- `now` is the reading of the clock.
  unfoldable pub add_once_task : ℕ → ℕ → C → Timer C → Timer C
  add_once_task now delay callback t = record t {
    task_queue =
        record {
          exec_timestamp = now + delay;
          callback = callback;
          is_periodic = false;
          period = 0;
        }
        ∷ t.task_queue;
  }

  unfoldable pub add_periodic_task : ℕ → ℕ → ℕ → C → Timer C → Timer C
  add_periodic_task now delay period callback t = record t {
    task_queue =
        record {
          exec_timestamp = now + delay;
          callback = callback;
          is_periodic = true;
          period = period;
        }
        ∷ t.task_queue;
  }

  -- `start`, before the thread, and `stop`.
  unfoldable pub start : Timer C → Timer C
  start t = record t { running = true }

  unfoldable pub stop : Timer C → Timer C
  stop t = record t { running = false }

  abbrev pub earlier :
      TimerTask C
      → List (TimerTask C)
      → Option (TimerTask C × List (TimerTask C))
      → Option (TimerTask C × List (TimerTask C))
  earlier t ts none = some (t, [])
  earlier t ts (some (u, rest)) =
      if leb t.exec_timestamp u.exec_timestamp then some (t, ts) else some (u, t ∷ rest)

  -- `top` and what `pop` leaves.
  unfoldable pub pop_top : List (TimerTask C) → Option (TimerTask C × List (TimerTask C))
  pop_top [] = none
  pop_top (t ∷ ts) = earlier t ts (pop_top ts)

  -- `if (nextTask.isPeriodic && running_)`: the task comes back at its next time.
  unfoldable pub push_again : TimerTask C → List (TimerTask C) → List (TimerTask C)
  push_again next rest =
      if next.is_periodic
      then (record next { exec_timestamp = next.exec_timestamp + next.period }) ∷ rest
      else rest

  -- What is done under the mutex with a task that is due, and the call of its callback without it.
  unfoldable pub take_task : TimerTask C → List (TimerTask C) → Timer C → Timer C
  take_task next rest t = record t { task_queue = push_again next rest }

  unfoldable pub call_back : TimerTask C → Timer C → Timer C
  call_back next t = record t { called = next ∷ t.called }

  abbrev pub run_due : ℕ → Timer C → Option (TimerTask C × List (TimerTask C)) → Timer C
  run_due now t none = t
  run_due now t (some (next, rest)) =
      if leb next.exec_timestamp now then call_back next (take_task next rest t) else t

  -- A round of the thread's loop that no other thread interrupts; it waits where this changes
  -- nothing.
  unfoldable pub round : ℕ → Timer C → Timer C
  round now t = if t.running then run_due now t (pop_top t.task_queue) else t
