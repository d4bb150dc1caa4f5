-- ===== src/Utils/ThreadPool/Taken.antt =====
-- The tasks of ThreadPool (src/utils/thread_pool.cpp), counted, and a worker that takes one.
use chatroom_server.Prelude.{
  ℕ, ◌+◌, ◌≤◌, ◌<◌, ◌≡◌, refl, Bool, Bool-cases, inl, inr, List, [], ◌∷◌, if◌then◌else◌, ltb,
  ltb→lt, sym, ap, ◌∙◌, arith,
}
use chatroom_server.Utils.Counting.{count, update, total, total-update, total-update_above}
use chatroom_server.Utils.ThreadPool.{
  Phase, ThreadPool, testing, looking, stealing, waiting, checked, asleep, running, exited, indexed,
  woken, take_or,
}

module _ {ℓ} {T : Type ℓ} where
  -- One for a worker in a task that passes a test.
  unfoldable pub in_task : (T → Bool) → Phase T → ℕ
  in_task p (running task) = if p task then 1 else 0
  in_task p _ = 0

  -- The tasks that pass a test: waiting, in the hands of a worker, or done.
  unfoldable pub known : (T → Bool) → ThreadPool T → ℕ
  known p s =
      total (count p) s.size s.task_queues + total (in_task p) s.size s.phase + count p s.done

  pub record IsCounted (p : T → Bool) (s : ThreadPool T) : Type ℓ where
    pub some_worker : 0 < s.size
    pub callers : (c i : ℕ) (task : T) → s.caller c ≡ indexed i task → i < s.size
    pub beyond : (j : ℕ) → s.size ≤ j → s.task_queues j ≡ []
    pub counts : known p s ≡ count p s.entered

  pub in_task-woken : (p : T → Bool) (a : Phase T) → in_task p (woken a) ≡ in_task p a
  unfolding in_task
  in_task-woken p testing = refl
  in_task-woken p looking = refl
  in_task-woken p (stealing js) = refl
  in_task-woken p waiting = refl
  in_task-woken p checked = refl
  in_task-woken p asleep = refl
  in_task-woken p (running t) = refl
  in_task-woken p exited = refl

  -- A worker changes its phase, but not its task.
  update-known :
      (p : T → Bool) (i : ℕ) (q : Phase T) (s : ThreadPool T)
      → in_task p q ≡ in_task p (s.phase i)
      → total (in_task p) s.size (update s.phase i q) ≡ total (in_task p) s.size s.phase
  update-known p i q s e = elim (Bool-cases (ltb i s.size)) [
    | inl y ↦ omega (arith, total-update (in_task p) s.size i s.phase q (ltb→lt _ _ y), e)
    | inr y ↦ total-update_above (in_task p) s.size i s.phase q (ground (arith, y))
  ]

  pub update-IsCounted :
      (p : T → Bool) (i : ℕ) (q : Phase T) (s : ThreadPool T)
      → in_task p q ≡ in_task p (s.phase i)
      → IsCounted p s
      → IsCounted p (record s { phase = update s.phase i q })
  unfolding known
  update-IsCounted p i q s e c = record {
    some_worker = c.some_worker;
    callers = c.callers;
    beyond = c.beyond;
    counts = omega (arith, update-known p i q s e, c.counts);
  }

  nonempty-inside :
      (p : T → Bool) (j : ℕ) (t : T) (ts : List T) (s : ThreadPool T)
      → s.task_queues j ≡ t ∷ ts
      → IsCounted p s
      → j < s.size
  nonempty-inside p j t ts s e c = elim (Bool-cases (ltb j s.size)) [
    | inl y ↦ ltb→lt _ _ y
    | inr y ↦ ground (arith, e, c.beyond j (ground (arith, y)))
  ]

  pub take_or-IsCounted :
      (p : T → Bool) (q : Phase T) (i j : ℕ) (tasks : List T) (s : ThreadPool T)
      → i < s.size
      → s.task_queues j ≡ tasks
      → in_task p (s.phase i) ≡ 0
      → in_task p q ≡ 0
      → IsCounted p s
      → IsCounted p (take_or q i j tasks s)
  unfolding take_or known in_task count
  take_or-IsCounted p q i j [] s h e f g c = update-IsCounted p i q s (g ∙ sym f) c
  take_or-IsCounted p q i j (t ∷ ts) s h e f g c =
      let inside = nonempty-inside p j t ts s e c in
      let queues = total-update (count p) s.size j s.task_queues ts inside in
      let phases = total-update (in_task p) s.size i s.phase (running t) h in
      record {
        some_worker = c.some_worker;
        callers = c.callers;
        beyond = λ k m. ground (arith, c.beyond k m, inside, m);
        counts = ground (arith, queues, phases, c.counts, ap (count p) e, f);
      }
