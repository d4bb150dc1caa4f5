-- ===== src/Tests/Pool.antt =====
-- Pools of one and of two workers.
use chatroom_server.Prelude.{ℕ, ◌≡◌, refl, Bool, List, [], ◌∷◌, ◌++◌, ◌==◌, arith}
use chatroom_server.Utils.Counting.{count}
use chatroom_server.Utils.ThreadPool.{
  ThreadPool, thread_pool, Step, asleep, joining, exited, worked, called, went_on, destroyed, step,
  steps, work, take_or, enter, go_on, destroy,
}
use chatroom_server.Utils.ThreadPool.Taken.{known}
use chatroom_server.Utils.ThreadPool.Counts.{thread_pool-known}
use chatroom_server.Utils.ThreadPool.Wakeups.{IsHeard, thread_pool-IsHeard}
use chatroom_server.Utils.ThreadPool.Moves.{steps_left}
use chatroom_server.Utils.ThreadPool.Exits.{IsEnding, turns, steps-exited}

abbrev is_five : ℕ → Bool
is_five t = t == 5

-- Task 5 goes to queue 0, and worker 1 steals it; task 6 goes to queue 1.
abbrev stealing_schedule : List (Step ℕ)
stealing_schedule =
    called 0 5
    ∷ worked 1 (0 ∷ [])
    ∷ worked 1 (0 ∷ [])
    ∷ went_on 0
    ∷ worked 1 (0 ∷ [])
    ∷ called 1 6
    ∷ went_on 1
    ∷ worked 1 (0 ∷ [])
    ∷ []

thread_pool-known_example :
    known is_five (steps stealing_schedule (thread_pool 2))
    ≡ count is_five (steps stealing_schedule (thread_pool 2)).entered
thread_pool-known_example = thread_pool-known is_five 2 stealing_schedule (omega arith)

stolen : (steps stealing_schedule (thread_pool 2)).done ≡ 5 ∷ []
unfolding steps step thread_pool work take_or enter go_on destroy
stolen = refl

-- Worker 0 is about to sleep when the destructor stores `stop_` and notifies.
abbrev sleeping_schedule : List (Step ℕ)
sleeping_schedule = worked 0 [] ∷ worked 0 [] ∷ worked 0 [] ∷ worked 0 [] ∷ []

abbrev lost_schedule : List (Step ℕ)
lost_schedule =
    worked 0 []
    ∷ worked 0 []
    ∷ worked 0 []
    ∷ worked 0 []
    ∷ destroyed
    ∷ destroyed
    ∷ destroyed
    ∷ worked 0 []
    ∷ []

thread_pool-IsHeard_example :
    IsHeard (steps (sleeping_schedule ++ worked 0 [] ∷ []) (thread_pool {T = ℕ} 1))
thread_pool-IsHeard_example = thread_pool-IsHeard 1 (sleeping_schedule ++ worked 0 [] ∷ [])

-- Its wake-up is lost: it sleeps, and the destructor waits for it.
lost :
    ((steps lost_schedule (thread_pool {T = ℕ} 1)).phase 0 ≡ asleep)
    × ((steps lost_schedule (thread_pool {T = ℕ} 1)).destructor ≡ joining)
unfolding steps step thread_pool work take_or enter go_on destroy
lost = (refl, refl)

-- The worker is before its wait when the pool is stopped.
abbrev stopped_pool : ThreadPool ℕ
stopped_pool = steps (worked 0 [] ∷ worked 0 [] ∷ worked 0 [] ∷ destroyed ∷ []) (thread_pool 1)

stopped-IsEnding : IsEnding 0 stopped_pool
unfolding steps step thread_pool work take_or enter go_on destroy
stopped-IsEnding = record {
  inside = omega arith;
  stopped = refl;
  free = λ j e. ground (arith, e);
  awake = λ e. ground (arith, e);
}

abbrev last_steps : List (Step ℕ)
last_steps = worked 0 [] ∷ destroyed ∷ worked 0 [] ∷ worked 0 [] ∷ []

steps-exited_example : (steps last_steps stopped_pool).phase 0 ≡ exited
unfolding steps step thread_pool work take_or enter go_on destroy steps_left turns
steps-exited_example =
    steps-exited 0 0 last_steps stopped_pool (omega arith, (tt, (omega arith, (omega arith, tt))))
      stopped-IsEnding (omega arith)
