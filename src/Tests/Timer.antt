-- ===== src/Tests/Timer.antt =====
-- A timer with a task that is due and one that is not.
use chatroom_server.Prelude.{ℕ, ◌+◌, ◌≡◌, refl}
use chatroom_server.Utils.Counting.{count}
use chatroom_server.Utils.Timer.{Timer, timer, add_once_task, add_periodic_task, start, round}
use chatroom_server.Utils.Due.{Round, once, round-Round, round-count}

abbrev two_tasks : Timer ℕ
two_tasks = start (add_once_task 0 9 1 (add_periodic_task 0 5 10 2 timer))

round-Round_example : Round 7 two_tasks (round 7 two_tasks)
unfolding start add_once_task add_periodic_task timer
round-Round_example = round-Round 7 two_tasks refl

round-count_example :
    (count once (round 7 two_tasks).task_queue + count once (round 7 two_tasks).called
      ≡ count once two_tasks.task_queue + count once two_tasks.called)
    × (count (λ v. v.is_periodic) (round 7 two_tasks).task_queue
        ≡ count (λ v. v.is_periodic) two_tasks.task_queue)
unfolding start add_once_task add_periodic_task timer
round-count_example = round-count 7 two_tasks refl
