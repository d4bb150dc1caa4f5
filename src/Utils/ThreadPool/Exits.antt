-- ===== src/Utils/ThreadPool/Exits.antt =====
-- The end of the workers of ThreadPool (src/utils/thread_pool.cpp).
use chatroom_server.Prelude.{
  ℕ, ◌+◌, ◌-◌, ◌≤◌, ◌<◌, ◌≡◌, ◌≢◌, refl, true, false, Bool-cases, inl, inr, length, List, [], ◌∷◌,
  if◌then◌else◌, ◌==◌, ltb, All, sym, ap, ◌∙◌, ◌⊎◌, arith,
}
use chatroom_server.Utils.Counting.{update}
use chatroom_server.Utils.ThreadPool.{
  Phase, Caller, Destructor, ThreadPool, Step, testing, looking, stealing, waiting, checked, asleep,
  running, exited, outside, indexed, pushed, alive, notifying, joining, is_checked, woken, enter,
  go_on, destroy, worked, called, went_on, destroyed, spurious, step, steps,
}
use chatroom_server.Utils.ThreadPool.Moves.{Next, steps_left, work-Next}

module _ {ℓ} {T : Type ℓ} where
  -- A worker steals from at most the other queues.
  abbrev pub Bounded : ℕ → Step T → Type 0
  Bounded n (worked i indices) = length indices ≤ n
  Bounded n _ = Unit

  -- How many steps of worker `i` there are.
  abbrev pub turn : ℕ → Step T → ℕ
  turn i (worked k indices) = if k == i then 1 else 0
  turn i _ = 0

  unfoldable pub turns : ℕ → List (Step T) → ℕ
  turns i [] = 0
  turns i (x ∷ xs) = turn i x + turns i xs

  -- The pool is stopped; no worker is about to sleep, and worker `i` does not sleep.
  pub record IsEnding (i : ℕ) (s : ThreadPool T) : Type ℓ where
    pub inside : i < s.size
    pub stopped : s.stop ≡ true
    pub free : (j : ℕ) → s.phase j ≢ checked
    pub awake : s.phase i ≢ asleep

  abbrev Goes : ℕ → ℕ → ℕ → ThreadPool T → ThreadPool T → Type ℓ
  Goes n i k s t = IsEnding i t × (steps_left n (t.phase i) ≤ steps_left n (s.phase i) - k)

  asleep-or : (p : Phase T) → (p ≡ asleep) ⊎ (p ≢ asleep)
  asleep-or testing = inr (λ e. ground (arith, e))
  asleep-or looking = inr (λ e. ground (arith, e))
  asleep-or (stealing js) = inr (λ e. ground (arith, e))
  asleep-or waiting = inr (λ e. ground (arith, e))
  asleep-or checked = inr (λ e. ground (arith, e))
  asleep-or asleep = inl refl
  asleep-or (running t) = inr (λ e. ground (arith, e))
  asleep-or exited = inr (λ e. ground (arith, e))

  Next-unchecked :
      (n k : ℕ) (s t : ThreadPool T)
      → Next n k (s.phase k) s t
      → s.stop ≡ true
      → ((j : ℕ) → s.phase j ≢ checked)
      → (j : ℕ) → t.phase j ≢ checked
  Next-unchecked n k s t (q, m, sleeps, nearer) e free j r = elim (asleep-or (s.phase k)) [
    | inl a ↦ ground (arith, r, m.phase_eq j, free j, sleeps a)
    | inr a ↦ ground (arith, r, m.phase_eq j, free j, (nearer e free a (free k)).1)
  ]

  Next-Goes :
      (n i k : ℕ) (s t : ThreadPool T)
      → Next n k (s.phase k) s t
      → IsEnding i s
      → Goes n i (if k == i then 1 else 0) s t
  Next-Goes n i k s t (q, m, sleeps, nearer) h = elim (Bool-cases (k == i)) [
    | inl y ↦
        let same : k ≡ i = ground (arith, y) in
        let a : s.phase k ≢ asleep = λ e. h.awake (ap s.phase (sym same) ∙ e) in
        let (b, c, d) = nearer h.stopped h.free a (h.free k) in
        (
          record {
            inside = ground (arith, m.size_eq, h.inside);
            stopped = m.stop_eq ∙ h.stopped;
            free = Next-unchecked n k s t (q, m, sleeps, nearer) h.stopped h.free;
            awake = λ e. ground (arith, e, m.phase_eq i, b, y);
          },
          ground (arith, m.phase_eq i, d, y, ap s.phase same),
        )
    | inr y ↦ (
      record {
        inside = ground (arith, m.size_eq, h.inside);
        stopped = m.stop_eq ∙ h.stopped;
        free = Next-unchecked n k s t (q, m, sleeps, nearer) h.stopped h.free;
        awake = λ e. ground (arith, e, m.phase_eq i, y, h.awake);
      },
      ground (arith, m.phase_eq i, y),
    )
  ]

  woken-cases : (p : Phase T) → (p ≡ asleep) ⊎ (woken p ≡ p)
  woken-cases testing = inr refl
  woken-cases looking = inr refl
  woken-cases (stealing js) = inr refl
  woken-cases waiting = inr refl
  woken-cases checked = inr refl
  woken-cases asleep = inl refl
  woken-cases (running t) = inr refl
  woken-cases exited = inr refl

  -- A worker that is woken up.
  woken-Goes :
      (n i k : ℕ) (s t : ThreadPool T)
      → ((j : ℕ) → t.phase j ≡ update s.phase k (woken (s.phase k)) j)
      → t.stop ≡ s.stop
      → t.size ≡ s.size
      → IsEnding i s
      → Goes n i 0 s t
  woken-Goes n i k s t f e z h =
      let kept : t.phase i ≡ s.phase i = elim (woken-cases (s.phase k)) [
        | inl a ↦ ground (arith, f i, a, h.awake)
        | inr a ↦ ground (arith, f i, a)
      ] in
      (
        record {
          inside = ground (arith, z, h.inside);
          stopped = e ∙ h.stopped;
          free = λ j r. elim (woken-cases (s.phase k)) [
            | inl a ↦ ground (arith, r, f j, a, h.free j)
            | inr a ↦ ground (arith, r, f j, a, h.free j)
          ];
          awake = λ r. h.awake (sym kept ∙ r);
        },
        ground (arith, kept),
      )

  unmoved :
      (n i : ℕ) (s t : ThreadPool T)
      → t.phase ≡ s.phase
      → t.stop ≡ true
      → t.size ≡ s.size
      → IsEnding i s
      → Goes n i 0 s t
  unmoved n i s t e f z h = (
    record {
      inside = ground (arith, z, h.inside);
      stopped = f;
      free = λ j r. h.free j (ap (λ g. g j) (sym e) ∙ r);
      awake = λ r. h.awake (ap (λ g. g i) (sym e) ∙ r);
    },
    ground (arith, ap (λ g. g i) e),
  )

  enter-Goes :
      (n i c : ℕ) (task : T) (a : Caller T) (s : ThreadPool T)
      → IsEnding i s
      → Goes n i 0 s (enter c task a s)
  unfolding enter
  enter-Goes n i c task outside s h = unmoved n i s _ refl h.stopped refl h
  enter-Goes n i c task (indexed j t) s h = unmoved n i s _ refl h.stopped refl h
  enter-Goes n i c task (pushed j) s h = unmoved n i s _ refl h.stopped refl h

  go_on-Goes :
      (n i c : ℕ) (a : Caller T) (s : ThreadPool T) → IsEnding i s → Goes n i 0 s (go_on c a s)
  unfolding go_on
  go_on-Goes n i c outside s h = unmoved n i s _ refl h.stopped refl h
  go_on-Goes n i c (indexed j task) s h = elim (Bool-cases (is_checked (s.phase j))) [
    | inl y ↦ rw y (unmoved n i s _ refl h.stopped refl h)
    | inr y ↦ rw y (unmoved n i s _ refl h.stopped refl h)
  ]
  go_on-Goes n i c (pushed j) s h = woken-Goes n i j s _ (λ k. refl) refl refl h

  destroy-Goes :
      (n i : ℕ) (d : Destructor) (s : ThreadPool T) → IsEnding i s → Goes n i 0 s (destroy d s)
  unfolding destroy
  destroy-Goes n i alive s h = unmoved n i s _ refl refl refl h
  destroy-Goes n i (notifying j) s h = elim (Bool-cases (ltb j s.size)) [
    | inl y ↦ rw y (woken-Goes n i j s _ (λ k. refl) refl refl h)
    | inr y ↦ rw y (unmoved n i s _ refl h.stopped refl h)
  ]
  destroy-Goes n i joining s h = unmoved n i s _ refl h.stopped refl h

  step-Goes :
      (n i : ℕ) (x : Step T) (s : ThreadPool T)
      → Bounded n x
      → IsEnding i s
      → Goes n i (turn i x) s (step x s)
  unfolding step
  step-Goes n i (worked k indices) s few h = elim (Bool-cases (ltb k s.size)) [
    | inl y ↦ rw y (Next-Goes n i k s _ (work-Next n k indices (s.phase k) s refl few) h)
    | inr y ↦
        let other : (k == i) ≡ false = ground (arith, y, h.inside) in
        rw (y, other) (unmoved n i s s refl h.stopped refl h)
  ]
  step-Goes n i (called c task) s few h = enter-Goes n i c task (s.caller c) s h
  step-Goes n i (went_on c) s few h = go_on-Goes n i c (s.caller c) s h
  step-Goes n i destroyed s few h = destroy-Goes n i s.destructor s h
  step-Goes n i (spurious k) s few h = woken-Goes n i k s _ (λ j. refl) refl refl h

  ended : (n : ℕ) (p : Phase T) → p ≢ asleep → p ≢ checked → steps_left n p ≤ 0 → p ≡ exited
  unfolding steps_left
  ended n testing a b e = absurd (omega arith)
  ended n looking a b e = absurd (omega arith)
  ended n (stealing js) a b e = absurd (omega arith)
  ended n waiting a b e = absurd (omega arith)
  ended n checked a b e = absurd (b refl)
  ended n asleep a b e = absurd (a refl)
  ended n (running t) a b e = absurd (omega arith)
  ended n exited a b e = refl

  -- A worker of a stopped pool exits: if no worker is about to sleep and worker `i` does not
  -- sleep, it has exited after `steps_left` steps of its own, whatever the other workers, the
  -- callers and the destructor do meanwhile; `n` bounds the queues that a worker tries to steal
  -- from.
  pub steps-exited :
      (n i : ℕ) (xs : List (Step T)) (s : ThreadPool T)
      → All (Bounded n) xs
      → IsEnding i s
      → steps_left n (s.phase i) ≤ turns i xs
      → (steps xs s).phase i ≡ exited
  unfolding steps turns
  steps-exited n i [] s few h e = ended n (s.phase i) h.awake (h.free i) e
  steps-exited n i (x ∷ xs) s (b, bs) h e =
      let (h', le) = step-Goes n i x s b h in steps-exited n i xs (step x s) bs h' (omega arith)
