-- ===== src/Utils/ThreadPool.antt =====
-- ThreadPool (src/utils/thread_pool.cpp, src/utils/thread_pool.hpp) with its mutexes and condition
-- variables, as steps of its workers, of the callers of `enqueue` and of the destructor in any order:
-- a step is what a thread does between two accesses that others can see. A task is run in one step,
-- and its future is left out.
pub mod Wakeups
pub mod Moves
pub mod Exits
pub mod Taken
pub mod Counts
use chatroom_server.Prelude.{
  ℕ, zero, suc, ◌+◌, ◌%◌, ◌^◌, Bool, true, false, List, [], ◌∷◌, ◌++◌, if◌then◌else◌, ◌==◌, ltb,
}
use chatroom_server.Utils.Counting.{update}

-- Where a worker is: at the test of its loop, before its own queue, in `steal_task` with the queues
-- left to try, before the test of its wait, after that test has failed and with its mutex, asleep,
-- in a task, at its end.
pub data Phase {ℓ} (T : Type ℓ) : Type ℓ where
  testing : Phase T
  looking : Phase T
  stealing : List ℕ → Phase T
  waiting : Phase T
  checked : Phase T
  asleep : Phase T
  running : T → Phase T
  exited : Phase T

-- Where a caller of `enqueue` is: outside, with the index of its queue, or before `notify_one`.
pub data Caller {ℓ} (T : Type ℓ) : Type ℓ where
  outside : Caller T
  indexed : ℕ → T → Caller T
  pushed : ℕ → Caller T

-- Where the destructor is: not called, before `notify_all` of a queue, or in the joins.
pub data Destructor : Type 0 where
  alive : Destructor
  notifying : ℕ → Destructor
  joining : Destructor

-- `size` is that of `workers_` and of `task_queues_`. ThreadPool, queues and callers go by number. The
-- tasks put into a queue and the tasks done so far, latest first.
pub record ThreadPool {ℓ} (T : Type ℓ) : Type ℓ where
  pub size : ℕ
  pub task_queues : ℕ → List T
  pub queue_index : ℕ
  pub stop : Bool
  pub phase : ℕ → Phase T
  pub caller : ℕ → Caller T
  pub destructor : Destructor
  pub entered : List T
  pub done : List T

-- Between two steps only a worker that is about to sleep has a mutex, that of its own queue.
abbrev pub is_checked {ℓ} : {T : Type ℓ} → Phase T → Bool
is_checked checked = true
is_checked _ = false

-- `notify_one` and `notify_all` of a queue, on which its own worker alone waits. A worker that
-- wakes up tests again.
abbrev pub woken {ℓ} : {T : Type ℓ} → Phase T → Phase T
woken asleep = waiting
woken p = p

module _ {ℓ} {T : Type ℓ} where
  -- The constructor.
  unfoldable pub thread_pool : ℕ → ThreadPool T
  thread_pool num_threads = record {
    size = num_threads;
    task_queues = λ i. [];
    queue_index = 0;
    stop = false;
    phase = λ i. testing;
    caller = λ c. outside;
    destructor = alive;
    entered = [];
    done = [];
  }

  abbrev pub in_phase : ℕ → Phase T → ThreadPool T → ThreadPool T
  in_phase i p s = record s { phase = update s.phase i p }

  -- Worker `i` takes the front of queue `j`, or goes on in another phase.
  unfoldable pub take_or : Phase T → ℕ → ℕ → List T → ThreadPool T → ThreadPool T
  take_or p i j [] s = in_phase i p s
  take_or p i j (task ∷ tasks) s = record s {
    task_queues = update s.task_queues j tasks;
    phase = update s.phase i (running task);
  }

  -- A round of `steal_task`, over the indices that are left.
  abbrev pub steal_task : ℕ → List ℕ → ThreadPool T → ThreadPool T
  steal_task i [] s = in_phase i waiting s
  steal_task i (j ∷ js) s =
      if is_checked (s.phase j) then s else take_or (stealing js) i j (s.task_queues j) s

  -- The next step of worker `i`. The indices are those that `steal_task` shuffles.
  unfoldable pub work : ℕ → List ℕ → Phase T → ThreadPool T → ThreadPool T
  work i indices testing s = in_phase i (if s.stop then exited else looking) s
  work i indices looking s = take_or (stealing indices) i i (s.task_queues i) s
  work i indices (stealing js) s = steal_task i js s
  work i indices waiting s = take_or (if s.stop then exited else checked) i i (s.task_queues i) s
  work i indices checked s = in_phase i asleep s
  work i indices asleep s = s
  work i indices (running task) s = record s {
    phase = update s.phase i testing;
    done = task ∷ s.done;
  }
  work i indices exited s = s

  -- `enqueue` with a task.
  unfoldable pub enter : ℕ → T → Caller T → ThreadPool T → ThreadPool T
  enter c task outside s = record s {
    caller = update s.caller c (indexed (s.queue_index % s.size) task);
    queue_index = (s.queue_index + 1) % 2 ^ 64;
  }
  enter c task (indexed i t) s = s
  enter c task (pushed i) s = s

  -- The next step of a caller that is in `enqueue`.
  unfoldable pub go_on : ℕ → Caller T → ThreadPool T → ThreadPool T
  go_on c outside s = s
  go_on c (indexed i task) s = if is_checked (s.phase i) then s else record s {
    task_queues = update s.task_queues i (s.task_queues i ++ task ∷ []);
    caller = update s.caller c (pushed i);
    entered = task ∷ s.entered;
  }
  go_on c (pushed i) s = record s {
    phase = update s.phase i (woken (s.phase i));
    caller = update s.caller c outside;
  }

  -- The next step of the destructor; the joins wait for the workers.
  unfoldable pub destroy : Destructor → ThreadPool T → ThreadPool T
  destroy alive s = record s { stop = true; destructor = notifying 0 }
  destroy (notifying i) s =
      if ltb i s.size
      then record s { phase = update s.phase i (woken (s.phase i)); destructor = notifying (i + 1) }
      else record s { destructor = joining }
  destroy joining s = s

-- What happens next: a step of a worker, a call of `enqueue` or its next step, a step of the
-- destructor, or a wake-up without a notification.
pub data Step {ℓ} (T : Type ℓ) : Type ℓ where
  worked : ℕ → List ℕ → Step T
  called : ℕ → T → Step T
  went_on : ℕ → Step T
  destroyed : Step T
  spurious : ℕ → Step T

-- There are no workers but the first `size`.
unfoldable pub step {ℓ} : {T : Type ℓ} → Step T → ThreadPool T → ThreadPool T
step (worked i indices) s = if ltb i s.size then work i indices (s.phase i) s else s
step (called c task) s = enter c task (s.caller c) s
step (went_on c) s = go_on c (s.caller c) s
step destroyed s = destroy s.destructor s
step (spurious i) s = record s { phase = update s.phase i (woken (s.phase i)) }

unfoldable pub steps {ℓ} : {T : Type ℓ} → List (Step T) → ThreadPool T → ThreadPool T
steps [] s = s
steps (x ∷ xs) s = steps xs (step x s)
