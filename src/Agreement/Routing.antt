-- ===== src/Agreement/Routing.antt =====
-- The routing tables of the two servers lead each API route to its handlers.
use chatroom_server.Prelude.{◌≡◌, ◌∙◌, ap, refl, Bytes, bytes, bytes_eq, List, some}
use chatroom_server.Table.{lookup, insert}
use chatroom_server.Platform.{Platform}
use chatroom_server.Platform.Monad.{World, Outcome, returned, thrown, continue, pure}
use chatroom_server.Http.Request.{HttpRequest}
use chatroom_server.Http.Server.{Handlers, RequestHandler, find_handler, add_handler}
use chatroom_server.Threaded.Routes as threaded_routes
use chatroom_server.Epoll.Http.{ParsedRequest}
use chatroom_server.Epoll.Routes as epoll_routes
use chatroom_server.Agreement.{
  Route, register, login, create_room, join_room, rooms, send_message, messages, users, logout,
  threaded, epoll, expected_body, epoll_agree,
}

abbrev pub method_of : Route → Bytes
method_of rooms = bytes "GET"
method_of users = bytes "GET"
method_of _ = bytes "POST"

abbrev pub path_of : Route → Bytes
path_of register = bytes "/register"
path_of login = bytes "/login"
path_of create_room = bytes "/create_room"
path_of join_room = bytes "/join_room"
path_of rooms = bytes "/rooms"
path_of send_message = bytes "/send_message"
path_of messages = bytes "/messages"
path_of users = bytes "/users"
path_of logout = bytes "/logout"

abbrev pub json : {Db : Type 0} → Outcome Bytes × World Db → Outcome epoll_routes.Reply × World Db
json (returned b, w) = (returned (epoll_routes.json_reply b), w)
json (thrown, w) = (thrown, w)

abbrev pub request_to : Route → List (Bytes × Bytes) → Bytes → ParsedRequest
request_to r headers body = record {
  method = method_of r;
  path = path_of r;
  headers = headers;
  body = body;
}

tables : Unit {0}
unfolding lookup insert bytes bytes_eq add_handler find_handler threaded_routes.setup_routes
    epoll_routes.setup_routes epoll_routes.route epoll_routes.register_handler threaded epoll
tables = tt

module _ (P : Platform) (dir : Bytes) where
  open P.sqlite use {Db}

  pub threaded_found :
      (r : Route)
      → find_handler (threaded_routes.setup_routes P dir) (method_of r) (path_of r)
        ≡ some (threaded P r)
  unfolding tables
  threaded_found register = refl
  threaded_found login = refl
  threaded_found create_room = refl
  threaded_found join_room = refl
  threaded_found rooms = refl
  threaded_found send_message = refl
  threaded_found messages = refl
  threaded_found users = refl
  threaded_found logout = refl

  epoll_found :
      (r : Route)
      → (paths : List (Bytes × epoll_routes.Handler Db)) × (lookup
            (method_of r)
            (epoll_routes.setup_routes P)
          ≡ some paths)
        × (lookup (path_of r) paths ≡ some (epoll_routes.with_body P (epoll P r)))
  unfolding tables
  epoll_found register = (_, refl, refl)
  epoll_found login = (_, refl, refl)
  epoll_found create_room = (_, refl, refl)
  epoll_found join_room = (_, refl, refl)
  epoll_found rooms = (_, refl, refl)
  epoll_found send_message = (_, refl, refl)
  epoll_found messages = (_, refl, refl)
  epoll_found users = (_, refl, refl)
  epoll_found logout = (_, refl, refl)

  json-continue :
      (o : Outcome Bytes × World Db)
      → continue (λ text. pure (epoll_routes.json_reply text)) o ≡ json o
  json-continue (returned b, w) = refl
  json-continue (thrown, w) = refl

  route-found :
      (handlers : Handlers (epoll_routes.Handler Db)) (request : ParsedRequest)
      (paths : List (Bytes × epoll_routes.Handler Db)) (handler : epoll_routes.Handler Db)
      (w : World Db)
      → lookup request.method handlers ≡ some paths
      → lookup request.path paths ≡ some handler
      → epoll_routes.route P dir handlers request w ≡ json (handler request.body request.headers w)
  unfolding epoll_routes.route
  route-found handlers request paths handler w e e' =
      rw (epoll_routes.route, e, e') (json-continue (handler request.body request.headers w))

  pub epoll-route :
      (r : Route) (headers : List (Bytes × Bytes)) (body : Bytes) (w : World Db)
      → epoll_routes.route P dir (epoll_routes.setup_routes P) (request_to r headers body) w
        ≡ json (epoll P r body w)
  epoll-route r headers body w =
      let (paths, e, e') = epoll_found r in
      route-found (epoll_routes.setup_routes P) (request_to r headers body) paths
        (epoll_routes.with_body P (epoll P r)) w e e'

  -- Each of the nine API routes leads to its handler in both servers: the handler that the thread
  -- pool's server finds for the route's method and path answers a request with a response r, or
  -- throws, and the event loop's server, for the same body, changes the database alike and replies
  -- with the body of r as JSON (on /users an exception escapes it where the other server's r has
  -- status 500).
  pub route_agree :
      (r : Route) (request : HttpRequest) (headers : List (Bytes × Bytes)) (w : World Db)
      → (handler : RequestHandler Db) × (find_handler
            (threaded_routes.setup_routes P dir)
            (method_of r)
            (path_of r)
          ≡ some handler)
        × (epoll_routes.route P dir
              (epoll_routes.setup_routes P)
              (request_to r headers request.body)
              w
            ≡ json (expected_body r (handler request w)))
  route_agree r request headers w = (
    threaded P r,
    threaded_found r,
    epoll-route r headers request.body w ∙ ap json (epoll_agree P r request w),
  )
