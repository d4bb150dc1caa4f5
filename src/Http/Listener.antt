-- ===== src/Http/Listener.antt =====
-- The socket of HttpServer (src/http/http_server.cpp): its constructor, `run`, `stop` and the
-- destructor, with the thread pool that serves the connections, and `sendStaticFile`. Log lines are
-- left out.
use chatroom_server.Prelude.{
  ℕ, Bool, true, false, not, Bytes, bytes, take, length, decimal, List, [], ◌∷◌, Option, none, some,
  if◌then◌else◌, ℤ,
}
use chatroom_server.Platform.Sockets.{SocketCalls, Opening, opened, refused, uint16, htons}
use chatroom_server.Http.Response.{http_response, set_header, to_string}
use chatroom_server.Utils.ThreadPool.{
  ThreadPool, Caller, outside, indexed, pushed, thread_pool, enter, step, worked, went_on,
  destroyed, spurious,
}

-- The constructor's socket. It closes nothing when it throws.
unfoldable pub listening_socket : SocketCalls → ℤ → Opening
listening_socket calls port = elim calls.socket [
  | none ↦ refused (bytes "Failed to create socket") []
  | some fd ↦
      let sin_port = htons (uint16 port) in
      if not calls.set_option
      then refused (bytes "Failed to set socket options") (fd ∷ [])
      else if not (calls.bind sin_port)
      then refused (bytes "Failed to bind to port") (fd ∷ [])
      else if not calls.listen
      then refused (bytes "Failed to listen") (fd ∷ [])
      else opened fd sin_port
]

-- Where the thread of `run` is: not in it, at the test of its loop, in `accept`, in `enqueue`.
pub data Runner : Type 0 where
  away : Runner
  testing : Runner
  accepting : Runner
  enqueuing : Runner

-- The members, with the descriptors that `accept` returned, latest first. A task of the pool is
-- `handleClient` of its descriptor.
pub record HttpServer : Type 0 where
  pub server_fd : ℕ
  pub running : Bool
  pub thread_pool : ThreadPool ℕ
  pub runner : Runner
  pub accepted : List ℕ

-- The other members of the constructor.
unfoldable pub http_server : ℕ → ℕ → HttpServer
http_server server_fd thread_num = record {
  server_fd = server_fd;
  running = false;
  thread_pool = thread_pool thread_num;
  runner = away;
  accepted = [];
}

-- `run` up to its loop.
unfoldable pub begin_run : HttpServer → HttpServer
begin_run s = record s { running = true; runner = testing }

-- After `accept`: the loop goes on, or `enqueue` is called, by the only caller of the pool.
unfoldable pub after_accept : Option ℕ → HttpServer → HttpServer
after_accept none s = record s { runner = testing }
after_accept (some client_fd) s = record s {
  thread_pool = enter 0 client_fd (s.thread_pool.caller 0) s.thread_pool;
  accepted = client_fd ∷ s.accepted;
  runner = enqueuing;
}

-- `enqueue` has returned when its caller is outside again.
abbrev pub if_returned : Caller ℕ → Runner
if_returned outside = testing
if_returned (indexed i task) = enqueuing
if_returned (pushed i) = enqueuing

abbrev pub with_pool : ThreadPool ℕ → HttpServer → HttpServer
with_pool pool s = record s { thread_pool = pool }

unfoldable pub after_enqueue : ThreadPool ℕ → HttpServer → HttpServer
after_enqueue pool s = record s { thread_pool = pool; runner = if_returned (pool.caller 0) }

-- The next step of the thread of `run`, with what `accept` returns if it is there.
unfoldable pub run_on : Option ℕ → Runner → HttpServer → HttpServer
run_on r away s = s
run_on r testing s = record s { runner = if s.running then accepting else away }
run_on r accepting s = after_accept r s
run_on r enqueuing s = after_enqueue (step (went_on 0) s.thread_pool) s

unfoldable pub stop : HttpServer → HttpServer
stop s = record s { running = false }

-- What the threads do: `run` is called, its thread goes on, a worker goes on or wakes up without a
-- notification, another thread stops the server, and the destructor of the pool goes on.
pub data Move : Type 0 where
  began : Move
  ran : Option ℕ → Move
  served : ℕ → List ℕ → Move
  woke : ℕ → Move
  stopping : Move
  destroying : Move

unfoldable pub move : Move → HttpServer → HttpServer
move began s = elim s.runner [ away ↦ begin_run s | _ ↦ s ]
move (ran r) s = run_on r s.runner s
move (served i indices) s = with_pool (step (worked i indices) s.thread_pool) s
move (woke i) s = with_pool (step (spurious i) s.thread_pool) s
move stopping s = stop s
move destroying s = with_pool (step destroyed s.thread_pool) s

unfoldable pub moves : List Move → HttpServer → HttpServer
moves [] s = s
moves (m ∷ ms) s = moves ms (move m s)

-- The destructor before that of the pool: `stop` and `close(serverFd_)`, with the descriptor that it
-- closes.
unfoldable pub destroy : HttpServer → ℕ × HttpServer
destroy s = (s.server_fd, stop s)

-- `stat`, the file's contents (`none` when it cannot be opened), and how many bytes the one call of
-- `write` takes; the bytes sent.
unfoldable pub send_static_file : Bool → Option Bytes → ℕ → Bytes
send_static_file there file n =
    if not there
    then take n (to_string (http_response 404 (bytes "File not found")))
    else elim file [
      | none ↦ take n (to_string (http_response 500 (bytes "Internal Server Error")))
      | some content ↦ take n (
          to_string (
            set_header (http_response 200 content) (bytes "Content-Length")
              (decimal (length content))))
    ]
