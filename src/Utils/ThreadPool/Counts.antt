-- ===== src/Utils/ThreadPool/Counts.antt =====
-- No task of ThreadPool (src/utils/thread_pool.cpp) is lost or run twice, at the level of its mutexes
-- and condition variables.
use chatroom_server.Prelude.{
  ℕ, ◌%◌, ◌<◌, ◌≡◌, refl, Bool, Bool-cases, inl, inr, List, [], ◌∷◌, ◌++◌, if◌then◌else◌, ◌==◌, ltb,
  ltb→lt, sym, ap, arith,
}
use chatroom_server.Utils.Counting.{count, count-append, update, total-update, total-zero}
use chatroom_server.Utils.ThreadPool.{
  Phase, Caller, Destructor, ThreadPool, Step, testing, looking, stealing, waiting, checked, asleep,
  running, exited, outside, indexed, pushed, alive, notifying, joining, is_checked, woken,
  thread_pool, work, enter, go_on, destroy, worked, called, went_on, destroyed, spurious, step,
  steps,
}
use chatroom_server.Utils.ThreadPool.Taken.{
  in_task, known, IsCounted, in_task-woken, update-IsCounted, take_or-IsCounted,
}

module _ {ℓ} {T : Type ℓ} where
  work-IsCounted :
      (p : T → Bool) (i : ℕ) (indices : List ℕ) (a : Phase T) (s : ThreadPool T)
      → i < s.size
      → s.phase i ≡ a
      → IsCounted p s
      → IsCounted p (work i indices a s)
  unfolding work known in_task count
  work-IsCounted p i indices testing s h e c =
      update-IsCounted p i (if s.stop then exited else looking) s (ground (arith, ap (in_task p) e))
        c
  work-IsCounted p i indices looking s h e c =
      take_or-IsCounted p (stealing indices) i i (s.task_queues i) s h refl (ap (in_task p) e) refl
        c
  work-IsCounted p i indices (stealing []) s h e c =
      update-IsCounted p i waiting s (sym (ap (in_task p) e)) c
  work-IsCounted p i indices (stealing (j ∷ js)) s h e c =
      elim (Bool-cases (is_checked (s.phase j))) [
        | inl y ↦ rw y c
        | inr y ↦ rw y (
            take_or-IsCounted p (stealing js) i j (s.task_queues j) s h refl (ap (in_task p) e) refl
              c)
      ]
  work-IsCounted p i indices waiting s h e c =
      take_or-IsCounted p (if s.stop then exited else checked) i i (s.task_queues i) s h refl
        (ap (in_task p) e) (ground arith) c
  work-IsCounted p i indices checked s h e c =
      update-IsCounted p i asleep s (sym (ap (in_task p) e)) c
  work-IsCounted p i indices asleep s h e c = c
  work-IsCounted p i indices (running task) s h e c = record {
    some_worker = c.some_worker;
    callers = c.callers;
    beyond = c.beyond;
    counts =
        ground
          (arith, total-update (in_task p) s.size i s.phase testing h, c.counts, ap (in_task p) e);
  }
  work-IsCounted p i indices exited s h e c = c

  woken-IsCounted :
      (p : T → Bool) (i : ℕ) (s : ThreadPool T)
      → IsCounted p s
      → IsCounted p (record s { phase = update s.phase i (woken (s.phase i)) })
  woken-IsCounted p i s c =
      update-IsCounted p i (woken (s.phase i)) s (in_task-woken p (s.phase i)) c

  called-inside :
      (c d i : ℕ) (t task : T) (s : ThreadPool T) {p : T → Bool}
      → update s.caller c (indexed (s.queue_index % s.size) task) d ≡ indexed i t
      → IsCounted p s
      → i < s.size
  called-inside c d i t task s e k = elim (Bool-cases (c == d)) [
    | inl y ↦
        let same : indexed (s.queue_index % s.size) task ≡ indexed i t = ground (arith, e, y) in
        let index : s.queue_index % s.size ≡ i = cc same in
        let below : s.queue_index % s.size < s.size = omega (arith, k.some_worker) in omega arith
    | inr y ↦ k.callers d i t (ground (arith, e, y))
  ]

  enter-IsCounted :
      (p : T → Bool) (c : ℕ) (task : T) (a : Caller T) (s : ThreadPool T)
      → IsCounted p s
      → IsCounted p (enter c task a s)
  unfolding enter known
  enter-IsCounted p c task outside s k = record {
    some_worker = k.some_worker;
    callers = λ d i t e. called-inside c d i t task s e k;
    beyond = k.beyond;
    counts = k.counts;
  }
  enter-IsCounted p c task (indexed i t) s k = k
  enter-IsCounted p c task (pushed i) s k = k

  go_on-IsCounted :
      (p : T → Bool) (c : ℕ) (a : Caller T) (s : ThreadPool T)
      → s.caller c ≡ a
      → IsCounted p s
      → IsCounted p (go_on c a s)
  unfolding go_on known count
  go_on-IsCounted p c outside s e k = k
  go_on-IsCounted p c (indexed i task) s e k = elim (Bool-cases (is_checked (s.phase i))) [
    | inl y ↦ rw y k
    | inr y ↦
        let inside = k.callers c i task e in
        rw y (record {
          some_worker = k.some_worker;
          callers = λ d j t q. k.callers d j t (ground (arith, q));
          beyond = λ j m. ground (arith, k.beyond j m, m, inside);
          counts = ground (
            arith,
            total-update (count p) s.size i s.task_queues (s.task_queues i ++ task ∷ []) inside,
            count-append p (s.task_queues i) (task ∷ []),
            k.counts,
          );
        })
  ]
  go_on-IsCounted p c (pushed i) s e k =
      let w = woken-IsCounted p i s k in
      record {
        some_worker = w.some_worker;
        callers = λ d j t q. k.callers d j t (ground (arith, q));
        beyond = w.beyond;
        counts = w.counts;
      }

  destroy-IsCounted :
      (p : T → Bool) (d : Destructor) (s : ThreadPool T) → IsCounted p s → IsCounted p (destroy d s)
  unfolding destroy known
  destroy-IsCounted p alive s k = record {
    some_worker = k.some_worker;
    callers = k.callers;
    beyond = k.beyond;
    counts = k.counts;
  }
  destroy-IsCounted p (notifying i) s k = elim (Bool-cases (ltb i s.size)) [
    | inl y ↦
        let w = woken-IsCounted p i s k in
        rw y (record {
          some_worker = w.some_worker;
          callers = w.callers;
          beyond = w.beyond;
          counts = w.counts;
        })
    | inr y ↦ rw y (record {
      some_worker = k.some_worker;
      callers = k.callers;
      beyond = k.beyond;
      counts = k.counts;
    })
  ]
  destroy-IsCounted p joining s k = k

  pub step-IsCounted :
      (p : T → Bool) (x : Step T) (s : ThreadPool T) → IsCounted p s → IsCounted p (step x s)
  unfolding step
  step-IsCounted p (worked i indices) s k = elim (Bool-cases (ltb i s.size)) [
    | inl y ↦ rw y (work-IsCounted p i indices (s.phase i) s (ltb→lt _ _ y) refl k)
    | inr y ↦ rw y k
  ]
  step-IsCounted p (called c task) s k = enter-IsCounted p c task (s.caller c) s k
  step-IsCounted p (went_on c) s k = go_on-IsCounted p c (s.caller c) s refl k
  step-IsCounted p destroyed s k = destroy-IsCounted p s.destructor s k
  step-IsCounted p (spurious i) s k = woken-IsCounted p i s k

  steps-IsCounted :
      (p : T → Bool) (xs : List (Step T)) (s : ThreadPool T)
      → IsCounted p s
      → IsCounted p (steps xs s)
  unfolding steps
  steps-IsCounted p [] s k = k
  steps-IsCounted p (x ∷ xs) s k = steps-IsCounted p xs (step x s) (step-IsCounted p x s k)

  pub thread_pool-IsCounted : (p : T → Bool) (n : ℕ) → 0 < n → IsCounted p (thread_pool n)
  unfolding thread_pool known count in_task
  thread_pool-IsCounted p n h = record {
    some_worker = h;
    callers = λ c i t e. cc;
    beyond = λ j m. refl;
    counts = omega (arith, total-zero (count p) n [] refl, total-zero (in_task p) n testing refl);
  }

  -- Each task is in one place: from a new pool with a worker, after any steps of workers, callers
  -- and the destructor in any order, as many tasks of every kind (every test p) wait in a queue,
  -- are run by a worker or are done as were put into the queues.
  pub thread_pool-known :
      (p : T → Bool) (n : ℕ) (xs : List (Step T))
      → 0 < n
      → known p (steps xs (thread_pool n)) ≡ count p (steps xs (thread_pool n)).entered
  thread_pool-known p n xs h =
      (steps-IsCounted p xs (thread_pool n) (thread_pool-IsCounted p n h)).counts
