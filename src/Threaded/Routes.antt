-- ===== src/Threaded/Routes.antt =====
-- The table that `ChatroomServer::setupRoutes` fills (src/chatroom_server.cpp).
use chatroom_server.Prelude.{Bytes, bytes, []}
use chatroom_server.Platform.{Platform}
use chatroom_server.Platform.Monad.{pure}
use chatroom_server.Http.Server.{Handlers, RequestHandler, add_handler}
use chatroom_server.Threaded.Accounts as accounts
use chatroom_server.Threaded.Rooms as room_handlers
use chatroom_server.Threaded.Messages as message_handlers
use chatroom_server.Threaded.Static.{handle_static_file_request}

module _ (P : Platform) (static_dir_path : Bytes) where
  open P.sqlite use {Db}

  abbrev pub static_handler : RequestHandler Db
  static_handler request = pure (handle_static_file_request P static_dir_path request.path)

  abbrev pub get_handlers : Handlers (RequestHandler Db) → Handlers (RequestHandler Db)
  get_handlers handlers =
      add_handler (bytes "GET") (bytes "/*") static_handler
        (add_handler (bytes "GET") (bytes "/") static_handler handlers)

  abbrev pub account_handlers : Handlers (RequestHandler Db) → Handlers (RequestHandler Db)
  account_handlers handlers =
      add_handler (bytes "POST") (bytes "/login") (accounts.login P)
        (add_handler (bytes "POST") (bytes "/register") (accounts.register P) handlers)

  abbrev pub room_routes : Handlers (RequestHandler Db) → Handlers (RequestHandler Db)
  room_routes handlers = add_handler (bytes "GET") (bytes "/rooms") (room_handlers.rooms P) (
      add_handler (bytes "POST") (bytes "/join_room") (room_handlers.join_room P)
        (add_handler (bytes "POST") (bytes "/create_room") (room_handlers.create_room P) handlers))

  abbrev pub message_routes : Handlers (RequestHandler Db) → Handlers (RequestHandler Db)
  message_routes handlers =
      add_handler (bytes "POST") (bytes "/messages") (message_handlers.messages P) (
        add_handler (bytes "POST") (bytes "/send_message") (message_handlers.send_message P)
          handlers)

  -- In the order of the source.
  unfoldable pub setup_routes : Handlers (RequestHandler Db)
  setup_routes = add_handler (bytes "POST") (bytes "/logout") (accounts.logout P) (
      add_handler (bytes "GET") (bytes "/users") (accounts.users P)
        (message_routes (room_routes (account_handlers (get_handlers [])))))
