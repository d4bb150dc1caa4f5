-- ===== src/Tests/Accepting.antt =====
-- An accept loop with one worker: two connections, one served, then the server is stopped.
use chatroom_server.Prelude.{
  ℕ, ◌+◌, ◌≤◌, ◌≡◌, refl, Bool, length, List, [], ◌∷◌, none, some, ◌==◌, arith,
}
use chatroom_server.Utils.Counting.{count}
use chatroom_server.Utils.ThreadPool.{step, thread_pool, go_on, enter, work, take_or}
use chatroom_server.Utils.ThreadPool.Taken.{known}
use chatroom_server.Http.Listener.{
  HttpServer, http_server, Move, began, ran, served, stopping, move, moves, stop, run_on, begin_run,
  after_accept, after_enqueue,
}
use chatroom_server.Http.Accepting.{entering, moves-known}
use chatroom_server.Http.Stopping.{awaited, never_began, moves-stop}

abbrev is_seven : ℕ → Bool
is_seven fd = fd == 7

abbrev schedule : List Move
schedule =
    began
    ∷ ran none
    ∷ ran (some 7)
    ∷ ran none
    ∷ ran none
    ∷ ran none
    ∷ ran none
    ∷ ran none
    ∷ ran (some 8)
    ∷ served 0 []
    ∷ served 0 []
    ∷ served 0 []
    ∷ stopping
    ∷ []

moves-known_example :
    let pool = (moves schedule (http_server 3 1)).thread_pool in
    known is_seven pool + entering is_seven (pool.caller 0)
    ≡ count is_seven (moves schedule (http_server 3 1)).accepted
moves-known_example = moves-known is_seven 3 1 schedule (omega arith)

seven_served :
    ((moves schedule (http_server 3 1)).thread_pool.done ≡ 7 ∷ [])
    × ((moves schedule (http_server 3 1)).accepted ≡ 8 ∷ 7 ∷ [])
unfolding moves move http_server thread_pool step stop run_on begin_run after_accept after_enqueue
    go_on enter work take_or
seven_served = (refl, refl)

-- The thread is in `accept`.
abbrev running_server : HttpServer
running_server = moves (began ∷ ran none ∷ []) (http_server 3 1)

moves-stop_example :
    length (moves (ran (some 9) ∷ ran none ∷ []) (move stopping running_server)).accepted
    ≤ awaited running_server.runner + length running_server.accepted
unfolding never_began
moves-stop_example = moves-stop (ran (some 9) ∷ ran none ∷ []) running_server refl
