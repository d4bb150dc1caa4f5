-- ===== src/Agreement.antt =====
-- The two servers, src/chatroom_server.cpp and src/chatroom_server_epoll.cpp, serve the same API:
-- their handlers compared route by route.
pub mod Routing
pub mod Static
pub mod Exchange
use chatroom_server.Prelude.{◌≡◌, refl, fun_ext, Bytes, arith, if◌then◌else◌, List, [], ◌∷◌, ◌==◌}
use chatroom_server.Platform.{Platform}
use chatroom_server.Platform.Monad.{World, Outcome, returned, thrown, M}
use chatroom_server.Http.Request.{HttpRequest}
use chatroom_server.Http.Response.{HttpResponse, http_response, set_header, set_body}
use chatroom_server.Threaded.Accounts as threaded_accounts
use chatroom_server.Threaded.Rooms as threaded_rooms
use chatroom_server.Threaded.Messages as threaded_messages
use chatroom_server.Epoll.Accounts as epoll_accounts
use chatroom_server.Epoll.Rooms as epoll_rooms
use chatroom_server.Epoll.Messages as epoll_messages

pub data Route : Type 0 where
  register login create_room join_room rooms send_message messages users logout : Route

-- The body of a response; an exception stays one.
abbrev body_of : {Db : Type 0} → Outcome HttpResponse × World Db → Outcome Bytes × World Db
body_of (returned r, w) = (returned r.body, w)
body_of (thrown, w) = (thrown, w)

-- Status 500 stands for an exception.
abbrev body_or_thrown : {Db : Type 0} → Outcome HttpResponse × World Db → Outcome Bytes × World Db
body_or_thrown (returned r, w) = if r.status_code == 500 then (thrown, w) else (returned r.body, w)
body_or_thrown (thrown, w) = (thrown, w)

-- What the epoll server should answer where the threaded one gives this response. Only /users
-- differs: there the threaded server turns an exception into a response with status 500.
abbrev pub expected_body :
    {Db : Type 0} → Route → Outcome HttpResponse × World Db → Outcome Bytes × World Db
expected_body users o = body_or_thrown o
expected_body _ o = body_of o

handlers : Unit {0}
unfolding http_response set_body set_header threaded_accounts.json_response
handlers = tt

module _ (P : Platform) where
  open P.sqlite use {Db}

  unfoldable pub threaded : Route → HttpRequest → M Db HttpResponse
  threaded register = threaded_accounts.register P
  threaded login = threaded_accounts.login P
  threaded create_room = threaded_rooms.create_room P
  threaded join_room = threaded_rooms.join_room P
  threaded rooms = threaded_rooms.rooms P
  threaded send_message = threaded_messages.send_message P
  threaded messages = threaded_messages.messages P
  threaded users = threaded_accounts.users P
  threaded logout = threaded_accounts.logout P

  unfoldable pub epoll : Route → Bytes → M Db Bytes
  epoll register = epoll_accounts.register P
  epoll login = epoll_accounts.login P
  epoll create_room = epoll_rooms.create_room P
  epoll join_room = epoll_rooms.join_room P
  epoll rooms = epoll_rooms.rooms P
  epoll send_message = epoll_messages.send_message P
  epoll messages = epoll_messages.messages P
  epoll users = epoll_accounts.users P
  epoll logout = epoll_accounts.logout P

  room_infos_agree :
      (ns : List Bytes) (w : World Db)
      → epoll_rooms.room_infos P ns w ≡ threaded_rooms.room_infos P ns w
  unfolding epoll_rooms.room_infos threaded_rooms.room_infos
  room_infos_agree [] w = refl
  room_infos_agree (n ∷ ns) w = refl

  rooms_agree :
      (r : HttpRequest) (w : World Db)
      → epoll_rooms.rooms P r.body w ≡ body_of (threaded_rooms.rooms P r w)
  unfolding epoll_rooms.rooms threaded_rooms.rooms handlers
  rooms_agree r w = rw (fun_ext (λ ns. fun_ext (λ v. room_infos_agree ns v))) (ground arith)

  routes : Unit {0}
  unfolding handlers threaded epoll threaded_accounts.register threaded_accounts.login
      threaded_rooms.create_room threaded_rooms.join_room threaded_messages.send_message
      threaded_messages.messages threaded_accounts.users threaded_accounts.logout
      epoll_accounts.register epoll_accounts.login epoll_rooms.create_room epoll_rooms.join_room
      epoll_messages.send_message epoll_messages.messages epoll_accounts.users epoll_accounts.logout
  routes = tt

  -- On each of the nine API routes, and in every state, the epoll server's handler changes the
  -- database exactly as the threaded server's does, and answers with the body of its response.
  -- Only on /users does it let an exception escape where the other answers with status 500.
  pub epoll_agree :
      (route : Route) (r : HttpRequest) (w : World Db)
      → epoll route r.body w ≡ expected_body route (threaded route r w)
  unfolding routes
  epoll_agree register r w = ground arith
  epoll_agree login r w = ground arith
  epoll_agree create_room r w = ground arith
  epoll_agree join_room r w = ground arith
  epoll_agree rooms r w = rooms_agree r w
  epoll_agree send_message r w = ground arith
  epoll_agree messages r w = ground arith
  epoll_agree users r w = ground arith
  epoll_agree logout r w = ground arith
