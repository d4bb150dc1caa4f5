-- ===== src/Main.antt =====
-- src/main.cpp, and the constructor of ChatroomServerEpoll (src/chatroom_server_epoll.cpp) that it
-- calls. Log lines and the sleep of one second are left out.
pub mod Starting
use chatroom_server.Prelude.{
  ℕ, zero, suc, ◌^◌, Bool, true, false, not, Bytes, bytes, starts_with_digit, read_digits, leb, ltb,
  ◌==◌, List, [], ◌∷◌, Option, none, some, if◌then◌else◌, ℤ, pos, negsuc,
}
use chatroom_server.Platform.{Platform}
use chatroom_server.Platform.Monad.{World, Outcome, returned, thrown}
use chatroom_server.Platform.Sockets.{SocketCalls, Opening, opened, refused, uint16, htons}
use chatroom_server.Db.Connection.{database_manager}
use chatroom_server.Epoll.Http.{skip_spaces}
use chatroom_server.Epoll.Routes.{setup_routes}
use chatroom_server.Epoll.Calls.{constructed}
use chatroom_server.Epoll.Loop.{Application, stop, enter_loop, Happening, loop}

abbrev minus : ℕ → ℤ
minus zero = pos zero
minus (suc n) = negsuc n

-- The digits that `std::stoi` reads; it throws where there are none or the number is no `int`.
unfoldable pub int_of : Bool → Bytes → Option ℤ
int_of negative s =
    let n = (read_digits 0 s).0 in
    if not (starts_with_digit s)
    then none
    else if negative
    then (if leb n (2 ^ 31) then some (minus n) else none)
    else (if ltb n (2 ^ 31) then some (pos n) else none)

abbrev pub signed_int : Bytes → Option ℤ
signed_int [] = none
signed_int (c ∷ s) =
    if c == b'+' then int_of false s else if c == b'-' then int_of true s else int_of false (c ∷ s)

-- `std::stoi`: white space, a sign, digits, and anything after them.
unfoldable pub stoi : Bytes → Option ℤ
stoi s = signed_int (skip_spaces s)

pub record Settings : Type 0 where
  pub port : ℤ
  pub static_dir_path : Bytes
  pub db_file_path : Bytes

abbrev first_or : Bytes → List Bytes → Bytes
first_or default [] = default
first_or default (argument ∷ arguments) = argument

abbrev pub with_port : Option ℤ → Bytes → Bytes → Option Settings
with_port none static_dir_path db_file_path = none
with_port (some port) static_dir_path db_file_path =
    some (record { port = port; static_dir_path = static_dir_path; db_file_path = db_file_path })

-- The arguments after the program's name; `none` when `std::stoi` throws.
unfoldable pub settings : List Bytes → Option Settings
settings [] = with_port (some (pos 8080)) (bytes "static") (bytes "chat.db")
settings (port ∷ []) = with_port (stoi port) (bytes "static") (bytes "chat.db")
settings (port ∷ static_dir_path ∷ rest) =
    with_port (stoi port) static_dir_path (first_or (bytes "chat.db") rest)

-- The listening socket of the constructor; the result of `setsockopt` is ignored.
unfoldable pub listen_socket : SocketCalls → ℤ → Opening
listen_socket calls port = elim calls.socket [
  | none ↦ refused (bytes "Failed to create listen socket") []
  | some fd ↦
      let sin_port = htons (uint16 port) in
      if not (calls.bind sin_port)
      then refused (bytes "Failed to bind listen socket") []
      else if not calls.listen
      then refused (bytes "Failed to listen") []
      else opened fd sin_port
]

-- Whether the logger's directory and the epoll instance can be created, and the socket's calls.
pub record Environment : Type 0 where
  pub logger_ready : Bool
  pub epoll_ready : Bool
  pub calls : SocketCalls

-- The application, before its loop, that listens on this descriptor.
abbrev pub started : ℕ → Application
started fd = record {
  server = constructed fd;
  listening = true;
  server_running = false;
  main_running = true;
}

-- The constructor, and what it leaves.
unfoldable pub chatroom_server_epoll : Environment → ℤ → Option Application
chatroom_server_epoll environment port =
    if not environment.epoll_ready then none else elim (listen_socket environment.calls port) [
      | refused what left_open ↦ none
      | opened fd sin_port ↦ some (started fd)
    ]

-- The exit code, with the application unless an exception destroyed it.
pub record Exit : Type 0 where
  pub code : ℕ
  pub application : Option Application

abbrev pub fatal : Exit
fatal = record { code = 1; application = none }

-- After `start` returns: the loop `while (running)`, and `stop`.
abbrev pub finish : {Db : Type 0} → Outcome (Option Application) × World Db → Option Exit × World Db
finish (thrown, w) = (some fatal, w)
finish (returned none, w) = (none, w)
finish (returned (some a), w) =
    (if a.main_running then none else some (record { code = 0; application = some (stop a) }), w)

module _ (P : Platform) where
  open P.sqlite use {Db}

  -- `app.start()` and what follows, for the application if its constructor does not throw.
  abbrev pub serve :
      Bytes → List (List Happening) → World Db → Option Application → Option Exit × World Db
  serve dir batches w none = (some fatal, w)
  serve dir batches w (some a) = finish (loop P dir (setup_routes P) batches (enter_loop a) w)

  abbrev pub start_with :
      Environment → List (List Happening) → Option Settings → Option Exit × World Db
  start_with environment batches none = (some fatal, record { db = none; reads = 0 })
  start_with environment batches (some s) =
      serve s.static_dir_path batches (database_manager P s.db_file_path)
        (chatroom_server_epoll environment s.port)

  -- `main`, given its arguments and the batches of the loop; no exit while it goes on after them.
  unfoldable pub main : Environment → List Bytes → List (List Happening) → Option Exit × World Db
  main environment arguments batches =
      if environment.logger_ready
      then start_with environment batches (settings arguments)
      else (some fatal, record { db = none; reads = 0 })
