-- ===== src/Http/Stopping.antt =====
-- The end of the accept loop of HttpServer (src/http/http_server.cpp).
use chatroom_server.Prelude.{
  ℕ, ◌+◌, ◌≤◌, ◌≡◌, refl, Bool, true, false, length, List, [], ◌∷◌, Option, none, some, ap, arith,
}
use chatroom_server.Utils.ThreadPool.{Caller, outside, indexed, pushed, step, went_on}
use chatroom_server.Http.Listener.{
  Runner, HttpServer, away, testing, accepting, enqueuing, after_accept, if_returned, after_enqueue,
  run_on, stop, Move, began, ran, served, woke, stopping, destroying, move, moves,
}

-- `run` is not called again.
unfoldable pub never_began : List Move → Bool
never_began [] = true
never_began (began ∷ ms) = false
never_began (_ ∷ ms) = never_began ms

-- The one connection that a thread in `accept` may yet get.
abbrev pub awaited : Runner → ℕ
awaited away = 0
awaited testing = 0
awaited accepting = 1
awaited enqueuing = 0

-- How many connections the server has accepted or may yet accept.
abbrev at_most : HttpServer → ℕ
at_most s = awaited s.runner + length s.accepted

awaited-if_returned : (a : Caller ℕ) → awaited (if_returned a) ≡ 0
awaited-if_returned outside = refl
awaited-if_returned (indexed i fd) = refl
awaited-if_returned (pushed i) = refl

abbrev StaysStopped : HttpServer → HttpServer → Type 0
StaysStopped s t = (t.running ≡ false) × (at_most t ≤ at_most s)

run_on-StaysStopped :
    (r : Option ℕ) (a : Runner) (s : HttpServer)
    → s.running ≡ false
    → s.runner ≡ a
    → StaysStopped s (run_on r a s)
unfolding run_on after_accept after_enqueue
run_on-StaysStopped r away s e q = (e, omega arith)
run_on-StaysStopped r testing s e q = (e, ground (arith, e))
run_on-StaysStopped none accepting s e q = (e, omega arith)
run_on-StaysStopped (some fd) accepting s e q = (e, omega (arith, ap awaited q))
run_on-StaysStopped r enqueuing s e q =
    (e, omega (arith, awaited-if_returned ((step (went_on 0) s.thread_pool).caller 0)))

move-StaysStopped :
    (m : Move) (ms : List Move) (s : HttpServer)
    → s.running ≡ false
    → never_began (m ∷ ms) ≡ true
    → StaysStopped s (move m s) × (never_began ms ≡ true)
unfolding move never_began stop
move-StaysStopped began ms s e n = ground (arith, n)
move-StaysStopped (ran r) ms s e n = (run_on-StaysStopped r s.runner s e refl, n)
move-StaysStopped (served i indices) ms s e n = ((e, omega arith), n)
move-StaysStopped (woke i) ms s e n = ((e, omega arith), n)
move-StaysStopped stopping ms s e n = ((refl, omega arith), n)
move-StaysStopped destroying ms s e n = ((e, omega arith), n)

moves-at_most :
    (ms : List Move) (s : HttpServer)
    → s.running ≡ false
    → never_began ms ≡ true
    → at_most (moves ms s) ≤ at_most s
unfolding moves
moves-at_most [] s e n = omega arith
moves-at_most (m ∷ ms) s e n =
    let ((e', le), n') = move-StaysStopped m ms s e n in
    let rest = moves-at_most ms (move m s) e' n' in omega arith

-- After `stop`, and unless `run` begins again, at most one more connection is accepted, whatever
-- the threads do, and none unless the thread of `run` was in `accept`.
pub moves-stop :
    (ms : List Move) (s : HttpServer)
    → never_began ms ≡ true
    → length (moves ms (move stopping s)).accepted ≤ awaited s.runner + length s.accepted
unfolding move stop
moves-stop ms s n = let h = moves-at_most ms (stop s) refl n in omega arith
