-- ===== src/Utils/ThreadPool/Wakeups.antt =====
-- The notifications of ThreadPool (src/utils/thread_pool.cpp, src/utils/thread_pool.hpp).
use chatroom_server.Prelude.{
  ℕ, ◌≡◌, ◌≢◌, refl, false, Bool-cases, inl, inr, List, [], ◌∷◌, ◌++◌, if◌then◌else◌, ◌==◌, ltb,
  arith,
}
use chatroom_server.Utils.Counting.{update}
use chatroom_server.Utils.ThreadPool.{
  Phase, Caller, Destructor, ThreadPool, Step, testing, looking, stealing, waiting, checked, asleep,
  running, exited, outside, indexed, pushed, alive, notifying, joining, is_checked, woken,
  thread_pool, take_or, work, enter, go_on, destroy, worked, called, went_on, destroyed, spurious,
  step, steps,
}

module _ {ℓ} {T : Type ℓ} where
  -- A worker that sleeps above a task has a notification under way, and one that is about to sleep
  -- has no task.
  pub record IsHeard (s : ThreadPool T) : Type ℓ where
    pub notice :
        (i : ℕ) → s.phase i ≡ asleep → s.task_queues i ≢ [] → (c : ℕ) × (s.caller c ≡ pushed i)
    pub idle : (i : ℕ) → s.phase i ≡ checked → s.task_queues i ≡ []

  -- A worker goes to a phase in which it does not sleep.
  update-awake :
      (i : ℕ) (p : Phase T) (s : ThreadPool T)
      → p ≢ asleep
      → p ≢ checked
      → IsHeard s
      → IsHeard (record s { phase = update s.phase i p })
  update-awake i p s a b h = record {
    notice = λ j e n. h.notice j (ground (arith, e)) n;
    idle = λ j e. h.idle j (ground (arith, e));
  }

  -- A worker that wakes up.
  woken-asleep : (p : Phase T) → (woken p ≢ asleep) × (woken p ≡ checked → p ≡ checked)
  woken-asleep testing = ground arith
  woken-asleep looking = ground arith
  woken-asleep (stealing js) = ground arith
  woken-asleep waiting = ground arith
  woken-asleep checked = ground arith
  woken-asleep asleep = ground arith
  woken-asleep (running t) = ground arith
  woken-asleep exited = ground arith

  update-woken :
      (i : ℕ) (s : ThreadPool T)
      → IsHeard s
      → IsHeard (record s { phase = update s.phase i (woken (s.phase i)) })
  update-woken i s h =
      let (a, b) = woken-asleep (s.phase i) in
      record {
        notice = λ j e n. h.notice j (ground (arith, e, a)) n;
        idle = λ j e. h.idle j (ground (arith, e, b));
      }

  -- A worker looks at a queue, and may find no task in its own before it is about to sleep.
  take_or-IsHeard :
      (p : Phase T) (i j : ℕ) (tasks : List T) (s : ThreadPool T)
      → s.task_queues j ≡ tasks
      → p ≢ asleep
      → (p ≡ checked → i ≡ j)
      → IsHeard s
      → IsHeard (take_or p i j tasks s)
  unfolding take_or
  take_or-IsHeard p i j [] s e a b h = record {
    notice = λ k q n. h.notice k (ground (arith, q)) n;
    idle = λ k q. elim (Bool-cases (i == k)) [
      | inl y ↦ ground (arith, q, y)
      | inr y ↦ h.idle k (ground (arith, q, y))
    ];
  }
  take_or-IsHeard p i j (t ∷ ts) s e a b h = record {
    notice = λ k q n. h.notice k (ground (arith, q)) (λ m. n (ground (arith, m, e)));
    idle = λ k q. ground (arith, q, h.idle k, e);
  }

  work-IsHeard :
      (i : ℕ) (indices : List ℕ) (p : Phase T) (s : ThreadPool T)
      → s.phase i ≡ p
      → IsHeard s
      → IsHeard (work i indices p s)
  unfolding work
  work-IsHeard i indices testing s e h =
      update-awake i (if s.stop then exited else looking) s (λ q. ground (arith, q))
        (λ q. ground (arith, q)) h
  work-IsHeard i indices looking s e h =
      take_or-IsHeard (stealing indices) i i (s.task_queues i) s refl (λ q. ground (arith, q))
        (λ q. refl) h
  work-IsHeard i indices (stealing []) s e h =
      update-awake i waiting s (λ q. ground (arith, q)) (λ q. ground (arith, q)) h
  work-IsHeard i indices (stealing (j ∷ js)) s e h = elim (Bool-cases (is_checked (s.phase j))) [
    | inl y ↦ rw y h
    | inr y ↦ rw y (
        take_or-IsHeard (stealing js) i j (s.task_queues j) s refl (λ q. ground (arith, q))
          (λ q. ground (arith, q)) h)
  ]
  work-IsHeard i indices waiting s e h =
      take_or-IsHeard (if s.stop then exited else checked) i i (s.task_queues i) s refl
        (λ q. ground (arith, q)) (λ q. refl) h
  work-IsHeard i indices checked s e h = record {
    notice = λ j q n. h.notice j (ground (arith, q, n, h.idle i e)) n;
    idle = λ j q. h.idle j (ground (arith, q));
  }
  work-IsHeard i indices asleep s e h = h
  work-IsHeard i indices (running task) s e h = record {
    notice = λ j q n. h.notice j (ground (arith, q)) n;
    idle = λ j q. h.idle j (ground (arith, q));
  }
  work-IsHeard i indices exited s e h = h

  enter-IsHeard :
      (c : ℕ) (task : T) (a : Caller T) (s : ThreadPool T)
      → s.caller c ≡ a
      → IsHeard s
      → IsHeard (enter c task a s)
  unfolding enter
  enter-IsHeard c task outside s e h = record {
    notice = λ j q n. let (d, r) = h.notice j q n in (d, ground (arith, r, e));
    idle = h.idle;
  }
  enter-IsHeard c task (indexed i t) s e h = h
  enter-IsHeard c task (pushed i) s e h = h

  is_checked-checked : (p : Phase T) → is_checked p ≡ false → p ≢ checked
  is_checked-checked p e q = ground (arith, q, e)

  push-notice :
      (c i j : ℕ) (task : T) (s : ThreadPool T)
      → s.caller c ≡ indexed i task
      → s.phase j ≡ asleep
      → update s.task_queues i (s.task_queues i ++ task ∷ []) j ≢ []
      → IsHeard s
      → (d : ℕ) × (update s.caller c (pushed i) d ≡ pushed j)
  push-notice c i j task s e q n h = elim (Bool-cases (i == j)) [
    | inl y ↦ (c, ground (arith, y))
    | inr y ↦ let (d, r) = h.notice j q (λ m. n (ground (arith, m, y))) in (d, ground (arith, r, e))
  ]

  go_on-IsHeard :
      (c : ℕ) (a : Caller T) (s : ThreadPool T) → s.caller c ≡ a → IsHeard s → IsHeard (go_on c a s)
  unfolding go_on
  go_on-IsHeard c outside s e h = h
  go_on-IsHeard c (indexed i task) s e h = elim (Bool-cases (is_checked (s.phase i))) [
    | inl y ↦ rw y h
    | inr y ↦ rw y (record {
      notice = λ j q n. push-notice c i j task s e q n h;
      idle = λ j q. ground (arith, q, h.idle j q, is_checked-checked (s.phase i) y);
    })
  ]
  go_on-IsHeard c (pushed i) s e h = record {
    notice = λ j q n.
        let (d, r) = h.notice j (ground (arith, q, woken-asleep (s.phase i))) n in
        (d, ground (arith, r, e, q, woken-asleep (s.phase i)));
    idle = λ j q. h.idle j (ground (arith, q, woken-asleep (s.phase i)));
  }

  destroy-IsHeard : (d : Destructor) (s : ThreadPool T) → IsHeard s → IsHeard (destroy d s)
  unfolding destroy
  destroy-IsHeard alive s h = record { notice = h.notice; idle = h.idle }
  destroy-IsHeard (notifying i) s h = elim (Bool-cases (ltb i s.size)) [
    | inl y ↦ let w = update-woken i s h in rw y (record { notice = w.notice; idle = w.idle })
    | inr y ↦ rw y (record { notice = h.notice; idle = h.idle })
  ]
  destroy-IsHeard joining s h = h

  step-IsHeard : (x : Step T) (s : ThreadPool T) → IsHeard s → IsHeard (step x s)
  unfolding step
  step-IsHeard (worked i indices) s h = elim (Bool-cases (ltb i s.size)) [
    | inl y ↦ rw y (work-IsHeard i indices (s.phase i) s refl h)
    | inr y ↦ rw y h
  ]
  step-IsHeard (called c task) s h = enter-IsHeard c task (s.caller c) s refl h
  step-IsHeard (went_on c) s h = go_on-IsHeard c (s.caller c) s refl h
  step-IsHeard destroyed s h = destroy-IsHeard s.destructor s h
  step-IsHeard (spurious i) s h = update-woken i s h

  initially-IsHeard : (n : ℕ) → IsHeard (thread_pool n)
  unfolding thread_pool
  initially-IsHeard n = record { notice = λ i e. cc; idle = λ i e. cc }

  steps-IsHeard : (xs : List (Step T)) (s : ThreadPool T) → IsHeard s → IsHeard (steps xs s)
  unfolding steps
  steps-IsHeard [] s h = h
  steps-IsHeard (x ∷ xs) s h = steps-IsHeard xs (step x s) (step-IsHeard x s h)

  -- No wake-up of `enqueue` is lost: from a new pool, after any steps of workers, callers and the
  -- destructor in any order, a worker that sleeps while its queue holds a task has a caller that
  -- is about to notify it, and the queue of a worker that is about to sleep is empty.
  pub thread_pool-IsHeard : (n : ℕ) (xs : List (Step T)) → IsHeard (steps xs (thread_pool n))
  thread_pool-IsHeard n xs = steps-IsHeard xs (thread_pool n) (initially-IsHeard n)
