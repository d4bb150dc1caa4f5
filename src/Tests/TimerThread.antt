-- ===== src/Tests/TimerThread.antt =====
-- A timer with one task at time 5.
use chatroom_server.Prelude.{ℕ, false, ◌≡◌, refl, List, [], ◌∷◌, arith}
use chatroom_server.Utils.Timer.{TimerTask, timer, add_once_task, start, pop_top}
use chatroom_server.Utils.Timer.Thread.{
  looping, calling, initial, may_go_on, may_leave, wake, body, advance, start_thread, Action,
  added_once, started, stopped, returned, advanced, act, acts,
}
use chatroom_server.Utils.Timer.Sleeping.{IsWakeful, initial-IsWakeful}
use chatroom_server.Utils.Timer.Stopping.{IsOver, with_taken, turns, acts-stopped}

-- The thread starts, sleeps, is woken up by the new task, and goes round its loop before its time.
abbrev waiting_for_five : List (Action ℕ)
waiting_for_five = started ∷ advanced 0 ∷ added_once 0 5 7 ∷ advanced 1 ∷ advanced 2 ∷ []

initial-IsWakeful_example : IsWakeful (acts waiting_for_five initial)
initial-IsWakeful_example = initial-IsWakeful waiting_for_five

-- It does not sleep although nothing is due.
before_five : (acts waiting_for_five initial).thread ≡ looping
unfolding acts act initial timer start start_thread may_go_on may_leave wake body advance pop_top
    add_once_task
before_five = refl

-- At time 5 it takes the task out of the queue, and then the timer is stopped.
abbrev due_at_five : List (Action ℕ)
due_at_five = started ∷ added_once 0 5 7 ∷ advanced 5 ∷ []

abbrev the_task : TimerTask ℕ
the_task = record { exec_timestamp = 5; callback = 7; is_periodic = false; period = 0 }

taken_at_five : (acts due_at_five initial).thread ≡ calling the_task
unfolding acts act initial timer start start_thread wake body advance pop_top add_once_task
taken_at_five = refl

abbrev last_actions : List (Action ℕ)
last_actions = advanced 6 ∷ advanced 7 ∷ returned ∷ []

acts-stopped_example :
    IsOver (acts last_actions (act stopped (acts due_at_five initial))).thread
    × ((acts last_actions (act stopped (acts due_at_five initial))).timer.called
        ≡ with_taken (acts due_at_five initial).thread (acts due_at_five initial).timer.called)
unfolding turns
acts-stopped_example =
    acts-stopped due_at_five last_actions (λ e. ground (arith, e, taken_at_five))
      (tt, (tt, (tt, tt))) (omega arith)
