-- ===== src/Main/Starting.antt =====
-- From the arguments of src/main.cpp to the exit code.
use chatroom_server.Prelude.{
  ℕ, ◌^◌, ◌%◌, ◌<◌, ◌≡◌, ◌++◌, ◌∙◌, refl, sym, ap, true, false, Bytes, List, [], ◌∷◌, some, pos,
  append-nil, starts_with_digit, read_digits, decimal, decimal-digit, read_digits-decimal, arith,
}
use chatroom_server.Platform.{Platform}
use chatroom_server.Platform.Monad.{World, returned}
use chatroom_server.Platform.Sockets.{SocketCalls, opened, uint16, htons}
use chatroom_server.Db.Connection.{database_manager}
use chatroom_server.Epoll.Routes.{setup_routes}
use chatroom_server.Epoll.Connections.{start}
use chatroom_server.Epoll.Loop.{
  Application, stop, enter_loop, Happening, signal, shut_down, signal_handler, happen_all,
}
use chatroom_server.Epoll.Shutdown.{Rounds, loop-Rounds, loop-signal}
use chatroom_server.Epoll.Http.{skip_spaces}
use chatroom_server.Main.{
  int_of, signed_int, stoi, with_port, settings, Environment, listen_socket, started,
  chatroom_server_epoll, serve, start_with, main, finish,
}

skip_spaces-digit : (s : Bytes) → starts_with_digit s ≡ true → skip_spaces s ≡ s
unfolding skip_spaces
skip_spaces-digit [] h = refl
skip_spaces-digit (c ∷ cs) h = ground (arith, h)

int_of-decimal : (n : ℕ) → n < 2 ^ 31 → int_of false (decimal n) ≡ some (pos n)
unfolding int_of
int_of-decimal n h =
    let number : read_digits 0 (decimal n) ≡ (n, []) =
      ap (read_digits 0) (sym (append-nil (decimal n))) ∙ read_digits-decimal n [] tt in
    ground (arith, number, decimal-digit n, h)

stoi-digit : (s : Bytes) → starts_with_digit s ≡ true → stoi s ≡ int_of false s
unfolding stoi
stoi-digit [] h = ground (arith, h)
stoi-digit (c ∷ cs) h = ap signed_int (skip_spaces-digit (c ∷ cs) h) ∙ ground (arith, h)

stoi-decimal : (n : ℕ) → n < 2 ^ 31 → stoi (decimal n) ≡ some (pos n)
stoi-decimal n h = stoi-digit (decimal n) (decimal-digit n) ∙ int_of-decimal n h

htons-htons : (n : ℕ) → n < 65_536 → htons (htons n) ≡ n
unfolding htons
htons-htons n h = omega arith

read_settings :
    (port : ℕ) (static_dir_path db_file_path : Bytes)
    → port < 2 ^ 31
    → settings (decimal port ∷ static_dir_path ∷ db_file_path ∷ [])
      ≡ some (record {
        port = pos port;
        static_dir_path = static_dir_path;
        db_file_path = db_file_path;
      })
unfolding settings
read_settings port dir db h = ap (λ o. with_port o dir db) (stoi-decimal port h)

-- A port written in decimal, below 2^31, is read from the arguments with the two paths. If `socket`
-- and `listen` succeed, and `bind` with any address, then the listening socket has an address in
-- whose `sin_port` the network reads the port modulo 2^16, thus the port if it is below 2^16.
pub settings-decimal :
    (port fd : ℕ) (static_dir_path db_file_path : Bytes) (calls : SocketCalls)
    → port < 2 ^ 31
    → calls.socket ≡ some fd
    → ((sin_port : ℕ) → calls.bind sin_port ≡ true)
    → calls.listen ≡ true
    → (settings (decimal port ∷ static_dir_path ∷ db_file_path ∷ [])
        ≡ some (record {
          port = pos port;
          static_dir_path = static_dir_path;
          db_file_path = db_file_path;
        }))
      × ((sin_port : ℕ) × (listen_socket calls (pos port) ≡ opened fd sin_port)
          × (htons sin_port ≡ port % 65_536))
unfolding settings listen_socket uint16
settings-decimal port fd dir db calls h s b n = (
  read_settings port dir db h,
  (
    htons (port % 65_536),
    rw (s, b (htons (port % 65_536)), n) refl,
    htons-htons (port % 65_536) (omega arith),
  ),
)

entered : (fd : ℕ) → (enter_loop (started fd)).server.event_loop.running ≡ true
unfolding enter_loop start
entered fd = refl

shut_down-finished : (a : Application) → (shut_down a).main_running ≡ false
unfolding shut_down signal_handler stop
shut_down-finished a = refl

chatroom_server_epoll-started :
    (environment : Environment) (fd port : ℕ)
    → environment.epoll_ready ≡ true
    → environment.calls.socket ≡ some fd
    → environment.calls.bind (htons (port % 65_536)) ≡ true
    → environment.calls.listen ≡ true
    → chatroom_server_epoll environment (pos port) ≡ some (started fd)
unfolding chatroom_server_epoll listen_socket uint16
chatroom_server_epoll-started environment fd port e s b n = rw (e, listen_socket, s, b, n) refl

module _ (P : Platform) where
  open P.sqlite use {Db}

  main-ready :
      (environment : Environment) (arguments : List Bytes) (batches : List (List Happening))
      → environment.logger_ready ≡ true
      → main P environment arguments batches ≡ start_with P environment batches (settings arguments)
  unfolding main
  main-ready environment arguments batches l = rw l refl

  -- A whole run, from the arguments to the exit code: if the logger, the epoll instance and the
  -- socket can be set up and the port is one in decimal below 2^31, then a signal ends the program
  -- with exit code 0, in whatever round it comes, once the loop has gone through the earlier rounds
  -- and the events of the batch up to the signal have come to an end; the server that is left was
  -- shut down and stopped.
  pub main-signal :
      (environment : Environment) (fd port : ℕ) (dir db : Bytes) (before after : List Happening)
      (earlier batches : List (List Happening)) (c a : Application) (v w : World Db)
      → port < 2 ^ 31
      → environment.logger_ready ≡ true
      → environment.epoll_ready ≡ true
      → environment.calls.socket ≡ some fd
      → environment.calls.bind (htons (port % 65_536)) ≡ true
      → environment.calls.listen ≡ true
      → Rounds P dir (setup_routes P) earlier (enter_loop (started fd)) (database_manager P db) c v
      → c.server.event_loop.running ≡ true
      → happen_all P dir (setup_routes P) before c v ≡ (returned a, w)
      → main P environment
          (decimal port ∷ dir ∷ db ∷ [])
          (earlier ++ (before ++ signal ∷ after) ∷ batches)
        ≡ (some (record { code = 0; application = some (stop (shut_down a)) }), w)
  main-signal environment fd port dir db before after earlier batches c a v w small l e s b n goes
        runs h =
      let asked = read_settings port dir db small in
      let built = chatroom_server_epoll-started environment fd port e s b n in
      let ended =
        loop-Rounds P dir (setup_routes P) earlier ((before ++ signal ∷ after) ∷ batches)
          (enter_loop (started fd)) c (database_manager P db) v goes
        ∙ loop-signal P dir (setup_routes P) c a before after batches v w runs h in
      main-ready environment (decimal port ∷ dir ∷ db ∷ []) _ l
      ∙ ap (start_with P environment (earlier ++ (before ++ signal ∷ after) ∷ batches)) asked
      ∙ ap (serve P dir (earlier ++ (before ++ signal ∷ after) ∷ batches) (database_manager P db))
          built
      ∙ ap finish ended
      ∙ rw (shut_down-finished a) refl
