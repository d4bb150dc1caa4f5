-- ===== src/Epoll/Loop.antt =====
-- `EventLoop::loop` (src/reactor/event_loop.cpp), `ChatroomServerEpoll::stop`
-- (src/chatroom_server_epoll.cpp) and the signal handler of src/main.cpp that calls it. A signal
-- arrives before, between or after the events of a batch; what it would break in the middle of a
-- callback is not modelled. Log lines are left out.
use chatroom_server.Prelude.{
  Bool, true, false, Bytes, List, [], ◌∷◌, Option, none, some, if◌then◌else◌,
}
use chatroom_server.Platform.{Platform}
use chatroom_server.Platform.Monad.{M, pure, ◌>>=◌}
use chatroom_server.Http.Server.{Handlers}
use chatroom_server.Reactor.EventLoop.{close_fd, quit}
use chatroom_server.Epoll.Routes.{Handler}
use chatroom_server.Epoll.Connections.{Server, Event, handle, start, cleanup_pending_channels}

-- The server, and whether `listenFd_` is open; it is -1 otherwise. `running_` of the server and of
-- main.cpp.
pub record Application : Type 0 where
  pub server : Server
  pub listening : Bool
  pub server_running : Bool
  pub main_running : Bool

-- `close(listenFd_)`
abbrev pub close_listener : Server → Server
close_listener s = record s {
  event_loop = record s.event_loop { epoller = close_fd s.listen_fd s.event_loop.epoller };
}

abbrev pub quit_loop : Server → Server
quit_loop s = record s { event_loop = quit s.event_loop }

unfoldable pub stop : Application → Application
stop a = record a {
  server = quit_loop (if a.listening then close_listener a.server else a.server);
  listening = false;
  server_running = false;
}

-- `running = false; if (global_application) global_application->stop();`
unfoldable pub signal_handler : Application → Application
signal_handler a = stop (record a { main_running = false })

-- The signal, and then the cleanup with which the round ends.
unfoldable pub shut_down : Application → Application
shut_down a = let b = signal_handler a in record b { server = cleanup_pending_channels b.server }

-- `start` up to the first test of the loop.
unfoldable pub enter_loop : Application → Application
enter_loop a = record a { server = start a.server; server_running = true }

-- What happens in a round of the loop, in order.
pub data Happening : Type 0 where
  event : Event → Happening
  signal : Happening

module _ (P : Platform) (static_dir_path : Bytes) where
  open P.sqlite use {Db}

  unfoldable pub happen : Handlers (Handler Db) → Happening → Application → M Db Application
  happen handlers (event e) a = do
    s ← handle P static_dir_path handlers e a.server
    pure (record a { server = s })
  happen handlers signal a = pure (signal_handler a)

  -- The loop over the active events.
  unfoldable pub happen_all :
      Handlers (Handler Db) → List Happening → Application → M Db Application
  happen_all handlers [] a = pure a
  happen_all handlers (h ∷ hs) a = do a' ← happen handlers h a; happen_all handlers hs a'

  -- The body of the loop, for the events that `epoll_wait` returns.
  unfoldable pub round : Handlers (Handler Db) → List Happening → Application → M Db Application
  round handlers batch a = do
    a' ← happen_all handlers batch a
    pure (record a' { server = cleanup_pending_channels a'.server })

  -- The loop, over the batches of its rounds; `none` while it goes on after them.
  unfoldable pub loop :
      Handlers (Handler Db) → List (List Happening) → Application → M Db (Option Application)
  loop handlers [] a = pure (if a.server.event_loop.running then none else some a)
  loop handlers (batch ∷ batches) a =
      let go_on = round handlers batch a >>= loop handlers batches in
      if a.server.event_loop.running then go_on else pure (some a)
