-- ===== src/Utils/Due.antt =====
-- Timer (src/utils/timer.cpp) calls a task that is due, the earliest first, and keeps the periodic
-- ones.
use chatroom_server.Prelude.{
  ℕ, ◌+◌, ◌≤◌, ◌<◌, ◌≡◌, ◌∙◌, ap, refl, sym, subst, inl, inr, Bool, true, false, not, Bool-cases,
  Option-cases, of_if, All, List, [], ◌∷◌, Option, none, some, if◌then◌else◌, leb, arith,
}
use chatroom_server.Utils.Counting.{count}
use chatroom_server.Utils.Timer.{
  TimerTask, Timer, earlier, pop_top, push_again, take_task, call_back, run_due, round,
}

module _ {C : Type 0} where
  -- The task is no later than the others, which it makes the whole queue with.
  pub record IsTop (ts : List (TimerTask C)) (left : TimerTask C × List (TimerTask C))
      : Type 0 where
    pub first : All (λ v. left.0.exec_timestamp ≤ v.exec_timestamp) ts
    pub whole : (p : TimerTask C → Bool) → count p ts ≡ (if p left.0 then 1 else 0) + count p left.1

  All-later :
      (a b : ℕ) (ts : List (TimerTask C))
      → a ≤ b
      → All (λ v. b ≤ v.exec_timestamp) ts
      → All (λ v. a ≤ v.exec_timestamp) ts
  All-later a b [] h all = tt
  All-later a b (t ∷ ts) h (le, all) = (omega arith, All-later a b ts h all)

  All-after :
      (now a : ℕ) (ts : List (TimerTask C))
      → now < a
      → All (λ v. a ≤ v.exec_timestamp) ts
      → All (λ v. now < v.exec_timestamp) ts
  All-after now a [] h all = tt
  All-after now a (t ∷ ts) h (le, all) = (omega arith, All-after now a ts h all)

  if_true :
      (R : Timer C → Type 0) (b : Bool) (x y : Timer C) → b ≡ true → R x → R (if b then x else y)
  if_true R b x y e r = subst (λ c. R (if c then x else y)) (sym e) r

  if_false :
      (R : Timer C → Type 0) (b : Bool) (x y : Timer C) → b ≡ false → R y → R (if b then x else y)
  if_false R b x y e r = subst (λ c. R (if c then x else y)) (sym e) r

  some-inj : (a b : TimerTask C × List (TimerTask C)) → some a ≡ some b → a ≡ b
  some-inj a b e = ground (arith, e)

  pop_top-none : (ts : List (TimerTask C)) → pop_top ts ≡ none → ts ≡ []
  unfolding pop_top
  pop_top-none [] e = refl
  pop_top-none (t ∷ ts) e = elim (Option-cases (pop_top ts)) [
    | inl n ↦ ground (arith, e, n)
    | inr (left, s) ↦ ground (arith, e, s)
  ]

  pop_top-IsTop :
      (ts : List (TimerTask C)) (left : TimerTask C × List (TimerTask C))
      → pop_top ts ≡ some left
      → IsTop ts left
  unfolding pop_top count
  pop_top-IsTop [] left e = ground (arith, e)
  pop_top-IsTop (t ∷ ts) left e = elim (Option-cases (pop_top ts)) [
    | inl n ↦
        let only : some (t, []) ≡ some left = ap (earlier t ts) (sym n) ∙ e in
        let empty = pop_top-none ts n in
        subst (IsTop (t ∷ ts)) (some-inj (t, []) left only) (record {
          first =
              (omega arith, subst (All (λ v. t.exec_timestamp ≤ v.exec_timestamp)) (sym empty) tt);
          whole = λ p. ap (λ l. (if p t then 1 else 0) + count p l) empty;
        })
    | inr ((u, rest), s) ↦
        let choice : earlier t ts (some (u, rest)) ≡ some left = ap (earlier t ts) (sym s) ∙ e in
        let h = pop_top-IsTop ts (u, rest) s in
        elim (Bool-cases (leb t.exec_timestamp u.exec_timestamp)) [
          | inl le ↦
              let top : some (t, ts) ≡ some left = ground (arith, choice, le) in
              subst (IsTop (t ∷ ts)) (some-inj (t, ts) left top) (record {
                first = (
                  omega arith,
                  All-later t.exec_timestamp u.exec_timestamp ts (ground (arith, le)) h.first,
                );
                whole = λ p. refl;
              })
          | inr gt ↦
              let top : some (u, t ∷ rest) ≡ some left = ground (arith, choice, gt) in
              subst (IsTop (t ∷ ts)) (some-inj (u, t ∷ rest) left top) (record {
                first = (ground (arith, gt), h.first);
                whole = λ p. ground (arith, h.whole p);
              })
        ]
  ]

  -- What a round comes to.
  pub data Round (now : ℕ) (t : Timer C) : Timer C → Type 0 where
    waits : All (λ v. now < v.exec_timestamp) t.task_queue → Round now t t
    runs_once :
        (next : TimerTask C) (rest : List (TimerTask C))
        → IsTop t.task_queue (next, rest)
        → next.exec_timestamp ≤ now
        → next.is_periodic ≡ false
        → Round now t (record t { task_queue = rest; called = next ∷ t.called })
    runs_periodic :
        (next : TimerTask C) (rest : List (TimerTask C))
        → IsTop t.task_queue (next, rest)
        → next.exec_timestamp ≤ now
        → next.is_periodic ≡ true
        → Round now t (record t {
          task_queue = (record next { exec_timestamp = next.exec_timestamp + next.period }) ∷ rest;
          called = next ∷ t.called;
        })

  runs-Round :
      (now : ℕ) (t : Timer C) (next : TimerTask C) (rest : List (TimerTask C))
      → IsTop t.task_queue (next, rest)
      → next.exec_timestamp ≤ now
      → Round now t (call_back next (take_task next rest t))
  unfolding call_back take_task push_again
  runs-Round now t next rest h le =
      let later = record next { exec_timestamp = next.exec_timestamp + next.period } in
      of_if (λ q. Round now t (record t { task_queue = q; called = next ∷ t.called }))
        next.is_periodic (later ∷ rest) rest (runs_periodic next rest h le)
        (runs_once next rest h le)

  run_due-Round :
      (now : ℕ) (t : Timer C) (o : Option (TimerTask C × List (TimerTask C)))
      → pop_top t.task_queue ≡ o
      → Round now t (run_due now t o)
  run_due-Round now t none e =
      waits (subst (All (λ v. now < v.exec_timestamp)) (sym (pop_top-none t.task_queue e)) tt)
  run_due-Round now t (some (next, rest)) e =
      let h = pop_top-IsTop t.task_queue (next, rest) e in
      elim (Bool-cases (leb next.exec_timestamp now)) [
        | inl le ↦
            if_true (Round now t) (leb next.exec_timestamp now) _ t le
              (runs-Round now t next rest h (ground (arith, le)))
        | inr gt ↦
            if_false (Round now t) (leb next.exec_timestamp now) _ t gt
              (waits (All-after now next.exec_timestamp t.task_queue (ground (arith, gt)) h.first))
      ]

  -- A round of a running timer calls nothing and changes nothing if every task is later than now.
  -- Else it calls one task, which is due and no later than any other. A one-shot task leaves the
  -- queue, and a periodic one is in it again at its time plus its period.
  pub round-Round : (now : ℕ) (t : Timer C) → t.running ≡ true → Round now t (round now t)
  unfolding round
  round-Round now t e =
      if_true (Round now t) t.running (run_due now t (pop_top t.task_queue)) t e
        (run_due-Round now t (pop_top t.task_queue) refl)

  abbrev pub once : TimerTask C → Bool
  once v = not v.is_periodic

  pub Round-count :
      (now : ℕ) (t t' : Timer C)
      → Round now t t'
      → (count once t'.task_queue + count once t'.called
          ≡ count once t.task_queue + count once t.called)
        × (count (λ v. v.is_periodic) t'.task_queue ≡ count (λ v. v.is_periodic) t.task_queue)
  unfolding count
  Round-count now t _ (waits all) = (refl, refl)
  Round-count now t _ (runs_once next rest h le e) =
      (ground (arith, h.whole once, e), ground (arith, h.whole (λ v. v.is_periodic), e))
  Round-count now t _ (runs_periodic next rest h le e) =
      (ground (arith, h.whole once, e), ground (arith, h.whole (λ v. v.is_periodic), e))

  -- One-shot tasks that wait or were called, and periodic tasks that wait, are as many after a
  -- round as before: a one-shot task is called at most once and not lost, and a periodic task
  -- stays.
  pub round-count :
      (now : ℕ) (t : Timer C)
      → t.running ≡ true
      → (count once (round now t).task_queue + count once (round now t).called
          ≡ count once t.task_queue + count once t.called)
        × (count (λ v. v.is_periodic) (round now t).task_queue
            ≡ count (λ v. v.is_periodic) t.task_queue)
  round-count now t e = Round-count now t (round now t) (round-Round now t e)
