-- ===== src/Utils/ThreadPool/Moves.antt =====
-- What a step of a worker of ThreadPool (src/utils/thread_pool.cpp) changes beside the queues.
use chatroom_server.Prelude.{
  ℕ, ◌+◌, ◌-◌, ◌≤◌, ◌≡◌, ◌≢◌, refl, true, false, Bool-cases, inl, inr, length, List, [], ◌∷◌,
  if◌then◌else◌, arith,
}
use chatroom_server.Utils.Counting.{update}
use chatroom_server.Utils.ThreadPool.{
  Phase, ThreadPool, testing, looking, stealing, waiting, checked, asleep, running, exited,
  is_checked, take_or, work,
}

module _ {ℓ} {T : Type ℓ} where
  -- Worker `i` is in a phase; nothing but the queues and the tasks done has changed otherwise.
  pub record Moved (i : ℕ) (q : Phase T) (s t : ThreadPool T) : Type ℓ where
    pub phase_eq : (j : ℕ) → t.phase j ≡ update s.phase i q j
    pub entered_eq : t.entered ≡ s.entered
    pub caller_eq : t.caller ≡ s.caller
    pub destructor_eq : t.destructor ≡ s.destructor
    pub stop_eq : t.stop ≡ s.stop
    pub size_eq : t.size ≡ s.size

  -- How many steps a worker takes at most before it has exited, once the pool is stopped and if it
  -- does not sleep and is not about to; `n` bounds the queues from which it steals.
  unfoldable pub steps_left : ℕ → Phase T → ℕ
  steps_left n testing = 1
  steps_left n looking = n + 5
  steps_left n (stealing js) = length js + 4
  steps_left n waiting = 3
  steps_left n checked = 0
  steps_left n asleep = 0
  steps_left n (running task) = 2
  steps_left n exited = 0

  -- The phase of a worker of a stopped pool after a step.
  abbrev pub Nearer : ℕ → Phase T → Phase T → Type ℓ
  Nearer n p q = (q ≢ asleep) × (q ≢ checked) × (steps_left n q ≤ steps_left n p - 1)

  abbrev pub Next : ℕ → ℕ → Phase T → ThreadPool T → ThreadPool T → Type ℓ
  Next n i p s t =
      (q : Phase T) × Moved i q s t
      × (p ≡ asleep → q ≡ asleep)
      × (s.stop ≡ true → ((j : ℕ) → s.phase j ≢ checked) → p ≢ asleep → p ≢ checked → Nearer n p q)

  stayed : (i : ℕ) (p : Phase T) (s : ThreadPool T) → s.phase i ≡ p → Moved i p s s
  stayed i p s e = record {
    phase_eq = λ j. ground (arith, e);
    entered_eq = refl;
    caller_eq = refl;
    destructor_eq = refl;
    stop_eq = refl;
    size_eq = refl;
  }

  moved :
      (i : ℕ) (q : Phase T) (s : ThreadPool T)
      → Moved i q s (record s { phase = update s.phase i q })
  moved i q s = record {
    phase_eq = λ j. refl;
    entered_eq = refl;
    caller_eq = refl;
    destructor_eq = refl;
    stop_eq = refl;
    size_eq = refl;
  }

  take_or-Next :
      (n : ℕ) (r p : Phase T) (i j : ℕ) (tasks : List T) (s : ThreadPool T)
      → p ≢ asleep
      → (s.stop ≡ true → Nearer n p r)
      → 3 ≤ steps_left n p
      → Next n i p s (take_or r i j tasks s)
  unfolding take_or steps_left
  take_or-Next n r p i j [] s a h few = (r, moved i r s, λ e. absurd (a e), λ e free b c. h e)
  take_or-Next n r p i j (t ∷ ts) s a h few = (
    running t,
    record {
      phase_eq = λ k. refl;
      entered_eq = refl;
      caller_eq = refl;
      destructor_eq = refl;
      stop_eq = refl;
      size_eq = refl;
    },
    λ e. absurd (a e),
    λ e free b c. (λ q. ground (arith, q), λ q. ground (arith, q), ground arith),
  )

  unchecked : (p : Phase T) → p ≢ checked → is_checked p ≡ false
  unchecked testing h = refl
  unchecked looking h = refl
  unchecked (stealing js) h = refl
  unchecked waiting h = refl
  unchecked checked h = absurd (h refl)
  unchecked asleep h = refl
  unchecked (running t) h = refl
  unchecked exited h = refl

  checked-is : (p : Phase T) → p ≢ checked → is_checked p ≢ true
  checked-is p h e = ground (arith, e, unchecked p h)

  pub work-Next :
      (n i : ℕ) (indices : List ℕ) (p : Phase T) (s : ThreadPool T)
      → s.phase i ≡ p
      → length indices ≤ n
      → Next n i p s (work i indices p s)
  unfolding work steps_left
  work-Next n i indices testing s e few = (
    if s.stop then exited else looking,
    moved i (if s.stop then exited else looking) s,
    λ q. ground (arith, q),
    λ q free a b. (λ r. ground (arith, r), λ r. ground (arith, r), ground (arith, q)),
  )
  work-Next n i indices looking s e few =
      take_or-Next n (stealing indices) looking i i (s.task_queues i) s (λ q. ground (arith, q))
        (λ q. (λ r. ground (arith, r), λ r. ground (arith, r), ground (arith, q, few)))
        (omega arith)
  work-Next n i indices (stealing []) s e few = (
    waiting,
    moved i waiting s,
    λ q. ground (arith, q),
    λ q free a b. (λ r. ground (arith, r), λ r. ground (arith, r), ground (arith, q)),
  )
  work-Next n i indices (stealing (j ∷ js)) s e few = elim (Bool-cases (is_checked (s.phase j))) [
    | inl y ↦ rw y (
      stealing (j ∷ js),
      stayed i (stealing (j ∷ js)) s e,
      λ q. ground (arith, q),
      λ q free a b. absurd (checked-is (s.phase j) (free j) y),
    )
    | inr y ↦ rw y (
        take_or-Next n (stealing js) (stealing (j ∷ js)) i j (s.task_queues j) s
          (λ q. ground (arith, q))
          (λ q. (λ r. ground (arith, r), λ r. ground (arith, r), omega arith)) (omega arith))
  ]
  work-Next n i indices waiting s e few =
      take_or-Next n (if s.stop then exited else checked) waiting i i (s.task_queues i) s
        (λ q. ground (arith, q))
        (λ q. (λ r. ground (arith, r, q), λ r. ground (arith, r, q), ground (arith, q)))
        (omega arith)
  work-Next n i indices checked s e few =
      (asleep, moved i asleep s, λ q. refl, λ q free a b. absurd (b refl))
  work-Next n i indices asleep s e few =
      (asleep, stayed i asleep s e, λ q. refl, λ q free a b. absurd (a refl))
  work-Next n i indices (running task) s e few = (
    testing,
    record {
      phase_eq = λ j. refl;
      entered_eq = refl;
      caller_eq = refl;
      destructor_eq = refl;
      stop_eq = refl;
      size_eq = refl;
    },
    λ q. ground (arith, q),
    λ q free a b. (λ r. ground (arith, r), λ r. ground (arith, r), omega arith),
  )
  work-Next n i indices exited s e few = (
    exited,
    stayed i exited s e,
    λ q. ground (arith, q),
    λ q free a b. (λ r. ground (arith, r), λ r. ground (arith, r), omega arith),
  )
