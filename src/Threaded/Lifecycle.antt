-- ===== src/Threaded/Lifecycle.antt =====
-- The constructor, `startServer` and `stopServer` of ChatroomServer (src/chatroom_server.cpp). Log
-- lines are left out.
use chatroom_server.Prelude.{Bytes, Option, none, some, ℤ}
use chatroom_server.Platform.{Platform}
use chatroom_server.Platform.Monad.{World}
use chatroom_server.Platform.Sockets.{SocketCalls, opened, refused}
use chatroom_server.Http.Server.{Handlers, RequestHandler}
use chatroom_server.Http.Listener.{HttpServer, listening_socket, http_server, begin_run, stop}
use chatroom_server.Db.Connection.{database_manager}
use chatroom_server.Threaded.Routes.{setup_routes}

module _ (P : Platform) where
  open P.sqlite use {Db}

  -- `httpServer_` with its table of handlers, and the state of `dbManager_`.
  pub record ChatroomServer : Type 0 where
    pub static_dir_path : Bytes
    pub http : Option (HttpServer × Handlers (RequestHandler Db))
    pub database : World Db

  unfoldable pub chatroom_server_of : Bytes → Bytes → ChatroomServer
  chatroom_server_of static_dir_path db_file_path = record {
    static_dir_path = static_dir_path;
    http = none;
    database = database_manager P db_file_path;
  }

  -- Up to the first call of `accept`; `none` when the socket cannot be opened. The server has the
  -- default number of threads.
  unfoldable pub start_server : SocketCalls → ℤ → ChatroomServer → Option ChatroomServer
  start_server calls port s = elim (listening_socket calls port) [
    | refused what left_open ↦ none
    | opened fd sin_port ↦
        some (record s {
          http = some (begin_run (http_server fd 4), setup_routes P s.static_dir_path);
        })
  ]

  unfoldable pub stop_server : ChatroomServer → ChatroomServer
  stop_server s = elim s.http [
    | none ↦ s
    | some (server, handlers) ↦ record s { http = some (stop server, handlers) }
  ]
