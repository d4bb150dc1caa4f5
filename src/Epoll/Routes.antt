-- ===== src/Epoll/Routes.antt =====
-- The routing of src/chatroom_server_epoll.cpp: `registerHandler`, `setupRoutes`, `dispatch`, and the
-- choice of a response in `handleClientEvent`. Log lines are left out.
use chatroom_server.Prelude.{Bytes, bytes, bytes_eq, List, [], none, some, if◌then◌else◌}
use chatroom_server.Platform.{Platform}
use chatroom_server.Platform.Monad.{M, pure, ◌>>=◌}
use chatroom_server.Table.{lookup}
use chatroom_server.Http.Server.{Handlers, add_handler}
use chatroom_server.Epoll.Accounts as accounts
use chatroom_server.Epoll.Rooms as room_handlers
use chatroom_server.Epoll.Messages as message_handlers
use chatroom_server.Epoll.Http.{ParsedRequest}
use chatroom_server.Epoll.Static.{handle_static_file}

-- `Handler`: the body and the headers.
abbrev pub Handler : Type 0 → Type 0
Handler Db = Bytes → List (Bytes × Bytes) → M Db Bytes

-- `handlers_[method][path] = handler;`
unfoldable pub register_handler : {H : Type 0} → Bytes → Bytes → H → Handlers H → Handlers H
register_handler method path handler handlers = add_handler method path handler handlers

-- A text with its content type.
pub record Reply : Type 0 where
  pub resp_body : Bytes
  pub content_type : Bytes

abbrev pub json_reply : Bytes → Reply
json_reply b = record { resp_body = b; content_type = bytes "application/json" }

abbrev pub static_reply : Platform → Bytes → Bytes → Reply
static_reply P static_dir_path path =
    let result = handle_static_file P static_dir_path path in
    record { resp_body = result.content; content_type = result.content_type }

module _ {Db : Type 0} where
  unfoldable pub dispatch :
      Handlers (Handler Db) → Bytes → Bytes → Bytes → List (Bytes × Bytes) → M Db Bytes
  dispatch handlers method path body headers = elim (lookup method handlers) [
    | none ↦ pure []
    | some paths ↦ elim (lookup path paths) [ none ↦ pure [] | some handler ↦ handler body headers ]
  ]

  module _ (P : Platform) (static_dir_path : Bytes) where
    -- For a method with handlers but another path, the response is a file for GET and the empty text
    -- else.
    unfoldable pub route : Handlers (Handler Db) → ParsedRequest → M Db Reply
    route handlers request = elim (lookup request.method handlers) [
      | none ↦
          if bytes_eq request.method (bytes "GET")
          then pure (static_reply P static_dir_path request.path)
          else pure (json_reply (bytes "{\"error\":\"Not found\"}"))
      | some paths ↦ elim (lookup request.path paths) [
        | some handler ↦ do text ← handler request.body request.headers; pure (json_reply text)
        | none ↦
            if bytes_eq request.method (bytes "GET")
            then pure (static_reply P static_dir_path request.path)
            else pure (json_reply [])
      ]
    ]

module _ (P : Platform) where
  open P.sqlite use {Db}

  abbrev pub with_body : (Bytes → M Db Bytes) → Handler Db
  with_body f body headers = f body

  -- In the order of the source.
  unfoldable pub setup_routes : Handlers (Handler Db)
  setup_routes = register_handler (bytes "POST") (bytes "/logout") (with_body (accounts.logout P)) (
      register_handler (bytes "GET") (bytes "/users") (with_body (accounts.users P)) (
        register_handler (bytes "POST") (bytes "/messages")
          (with_body (message_handlers.messages P))
          (register_handler (bytes "POST") (bytes "/send_message")
            (with_body (message_handlers.send_message P))
            (register_handler (bytes "GET") (bytes "/rooms") (with_body (room_handlers.rooms P)) (
              register_handler (bytes "POST") (bytes "/join_room")
                (with_body (room_handlers.join_room P))
                (register_handler (bytes "POST") (bytes "/create_room")
                  (with_body (room_handlers.create_room P))
                  (register_handler (bytes "POST") (bytes "/login") (with_body (accounts.login P)) (
                    register_handler (bytes "POST") (bytes "/register")
                      (with_body (accounts.register P)) []))))))))
