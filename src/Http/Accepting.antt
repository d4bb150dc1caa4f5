-- ===== src/Http/Accepting.antt =====
-- The accept loop of HttpServer (src/http/http_server.cpp) with the threads of its pool, in any
-- order.
use chatroom_server.Prelude.{
  ℕ, ◌+◌, ◌<◌, ◌≡◌, ◌≢◌, refl, ap, ◌∙◌, Bool, length, List, [], ◌∷◌, Option, none, some,
  if◌then◌else◌, Bool-cases, inl, inr, ltb, arith,
}
use chatroom_server.Utils.Counting.{count}
use chatroom_server.Utils.ThreadPool.{
  Caller, ThreadPool, Step, outside, indexed, pushed, thread_pool, enter, worked, went_on,
  destroyed, spurious, step, called, Destructor, alive, notifying, joining, destroy, go_on,
  is_checked,
}
use chatroom_server.Utils.ThreadPool.Taken.{known, IsCounted}
use chatroom_server.Utils.ThreadPool.Counts.{step-IsCounted, thread_pool-IsCounted}
use chatroom_server.Utils.ThreadPool.Moves.{work-Next}
use chatroom_server.Http.Listener.{
  Runner, HttpServer, http_server, away, testing, accepting, enqueuing, begin_run, after_accept,
  if_returned, with_pool, after_enqueue, run_on, stop, Move, began, ran, served, woke, stopping,
  destroying, move, moves,
}

-- One for a caller that has its queue and has not yet put its descriptor there.
unfoldable pub entering : (ℕ → Bool) → Caller ℕ → ℕ
entering p outside = 0
entering p (indexed i fd) = if p fd then 1 else 0
entering p (pushed i) = 0

-- The pool's count, the caller, and the thread of `run`.
record IsAccounted (p : ℕ → Bool) (s : HttpServer) : Type 0 where
  pool_counted : IsCounted p s.thread_pool
  caller_counted :
      count p s.thread_pool.entered + entering p (s.thread_pool.caller 0) ≡ count p s.accepted
  returned : s.runner ≢ enqueuing → s.thread_pool.caller 0 ≡ outside

-- What the pool does while the caller does nothing.
worked-kept :
    (i : ℕ) (indices : List ℕ) (t : ThreadPool ℕ)
    → ((step (worked i indices) t).caller ≡ t.caller)
      × ((step (worked i indices) t).entered ≡ t.entered)
unfolding step
worked-kept i indices t = elim (Bool-cases (ltb i t.size)) [
  | inl y ↦
      let (q, m, sleeps, nearer) =
        work-Next (length indices) i indices (t.phase i) t refl (omega arith) in
      rw y (m.caller_eq, m.entered_eq)
  | inr y ↦ rw y (refl, refl)
]

destroyed-kept :
    (d : Destructor) (t : ThreadPool ℕ)
    → ((destroy d t).caller ≡ t.caller) × ((destroy d t).entered ≡ t.entered)
unfolding destroy
destroyed-kept alive t = (refl, refl)
destroyed-kept (notifying i) t = elim (Bool-cases (ltb i t.size)) [
  | inl y ↦ rw y (refl, refl)
  | inr y ↦ rw y (refl, refl)
]
destroyed-kept joining t = (refl, refl)

with_pool-IsAccounted :
    (p : ℕ → Bool) (x : Step ℕ) (s : HttpServer)
    → (step x s.thread_pool).caller ≡ s.thread_pool.caller
    → (step x s.thread_pool).entered ≡ s.thread_pool.entered
    → IsAccounted p s
    → IsAccounted p (with_pool (step x s.thread_pool) s)
with_pool-IsAccounted p x s e f h =
    let same : (step x s.thread_pool).caller 0 ≡ s.thread_pool.caller 0 = ap (λ g. g 0) e in
    record {
      pool_counted = step-IsCounted p x s.thread_pool h.pool_counted;
      caller_counted = rw (same, f) h.caller_counted;
      returned = λ n. same ∙ h.returned n;
    }

-- A descriptor is with the caller, and then in a queue.
enter-entering :
    (p : ℕ → Bool) (fd : ℕ) (a : Caller ℕ) (t : ThreadPool ℕ)
    → a ≡ outside
    → count p (enter 0 fd a t).entered + entering p ((enter 0 fd a t).caller 0)
      ≡ (if p fd then 1 else 0) + count p t.entered
unfolding enter entering
enter-entering p fd outside t e = omega arith
enter-entering p fd (indexed i task) t e = ground (arith, e)
enter-entering p fd (pushed i) t e = ground (arith, e)

go_on-entering :
    (p : ℕ → Bool) (a : Caller ℕ) (t : ThreadPool ℕ)
    → t.caller 0 ≡ a
    → count p (go_on 0 a t).entered + entering p ((go_on 0 a t).caller 0)
      ≡ count p t.entered + entering p (t.caller 0)
unfolding go_on entering count
go_on-entering p outside t e = refl
go_on-entering p (indexed i fd) t e = elim (Bool-cases (is_checked (t.phase i))) [
  | inl y ↦ rw y refl
  | inr y ↦ rw y (ground (arith, ap (entering p) e))
]
go_on-entering p (pushed i) t e = ground (arith, ap (entering p) e)

testing-outside : (a : Caller ℕ) → if_returned a ≢ enqueuing → a ≡ outside
testing-outside outside n = refl
testing-outside (indexed i fd) n = absurd (n refl)
testing-outside (pushed i) n = absurd (n refl)

after_accept-IsAccounted :
    (p : ℕ → Bool) (r : Option ℕ) (s : HttpServer)
    → s.thread_pool.caller 0 ≡ outside
    → IsAccounted p s
    → IsAccounted p (after_accept r s)
unfolding after_accept count step entering
after_accept-IsAccounted p none s e h = record {
  pool_counted = h.pool_counted;
  caller_counted = h.caller_counted;
  returned = λ n. e;
}
after_accept-IsAccounted p (some fd) s e h = record {
  pool_counted = step-IsCounted p (called 0 fd) s.thread_pool h.pool_counted;
  caller_counted = ground (
    arith,
    enter-entering p fd (s.thread_pool.caller 0) s.thread_pool e,
    h.caller_counted,
    ap (entering p) e,
  );
  returned = λ n. absurd (n refl);
}

after_enqueue-IsAccounted :
    (p : ℕ → Bool) (s : HttpServer)
    → IsAccounted p s
    → IsAccounted p (after_enqueue (step (went_on 0) s.thread_pool) s)
unfolding after_enqueue step
after_enqueue-IsAccounted p s h = record {
  pool_counted = step-IsCounted p (went_on 0) s.thread_pool h.pool_counted;
  caller_counted = go_on-entering p (s.thread_pool.caller 0) s.thread_pool refl ∙ h.caller_counted;
  returned = λ n. testing-outside _ n;
}

run_on-IsAccounted :
    (p : ℕ → Bool) (r : Option ℕ) (a : Runner) (s : HttpServer)
    → s.runner ≡ a
    → IsAccounted p s
    → IsAccounted p (run_on r a s)
unfolding run_on
run_on-IsAccounted p r away s e h = h
run_on-IsAccounted p r testing s e h = record {
  pool_counted = h.pool_counted;
  caller_counted = h.caller_counted;
  returned = λ n. h.returned (λ q. ground (arith, q, e));
}
run_on-IsAccounted p r accepting s e h =
    after_accept-IsAccounted p r s (h.returned (λ q. ground (arith, q, e))) h
run_on-IsAccounted p r enqueuing s e h = after_enqueue-IsAccounted p s h

began-IsAccounted :
    (p : ℕ → Bool) (a : Runner) (s : HttpServer)
    → s.runner ≡ a
    → IsAccounted p s
    → IsAccounted p (elim a [ away ↦ begin_run s | _ ↦ s ])
unfolding begin_run
began-IsAccounted p away s e h = record {
  pool_counted = h.pool_counted;
  caller_counted = h.caller_counted;
  returned = λ n. h.returned (λ q. ground (arith, q, e));
}
began-IsAccounted p testing s e h = h
began-IsAccounted p accepting s e h = h
began-IsAccounted p enqueuing s e h = h

move-IsAccounted :
    (p : ℕ → Bool) (m : Move) (s : HttpServer) → IsAccounted p s → IsAccounted p (move m s)
unfolding move stop step
move-IsAccounted p began s h = began-IsAccounted p s.runner s refl h
move-IsAccounted p (ran r) s h = run_on-IsAccounted p r s.runner s refl h
move-IsAccounted p (served i indices) s h =
    let (e, f) = worked-kept i indices s.thread_pool in
    with_pool-IsAccounted p (worked i indices) s e f h
move-IsAccounted p (woke i) s h = with_pool-IsAccounted p (spurious i) s refl refl h
move-IsAccounted p stopping s h = record {
  pool_counted = h.pool_counted;
  caller_counted = h.caller_counted;
  returned = h.returned;
}
move-IsAccounted p destroying s h =
    let (e, f) = destroyed-kept s.thread_pool.destructor s.thread_pool in
    with_pool-IsAccounted p destroyed s e f h

moves-IsAccounted :
    (p : ℕ → Bool) (ms : List Move) (s : HttpServer) → IsAccounted p s → IsAccounted p (moves ms s)
unfolding moves
moves-IsAccounted p [] s h = h
moves-IsAccounted p (m ∷ ms) s h = moves-IsAccounted p ms (move m s) (move-IsAccounted p m s h)

http_server-IsAccounted : (p : ℕ → Bool) (fd n : ℕ) → 0 < n → IsAccounted p (http_server fd n)
unfolding http_server thread_pool count entering
http_server-IsAccounted p fd n h = record {
  pool_counted = thread_pool-IsCounted p n h;
  caller_counted = refl;
  returned = λ q. refl;
}

-- Every connection is in one place: from a new server with a worker, after any moves of the threads
-- in any order, `accept` has returned as many descriptors of every kind (every test p) as wait for a
-- worker, are in the hands of one or were served, together with the one that the accept loop may be
-- about to put into a queue.
pub moves-known :
    (p : ℕ → Bool) (fd thread_num : ℕ) (ms : List Move)
    → 0 < thread_num
    → let pool = (moves ms (http_server fd thread_num)).thread_pool in
      known p pool + entering p (pool.caller 0)
      ≡ count p (moves ms (http_server fd thread_num)).accepted
moves-known p fd n ms h =
    let a = moves-IsAccounted p ms (http_server fd n) (http_server-IsAccounted p fd n h) in
    omega (arith, a.caller_counted, a.pool_counted.counts)
