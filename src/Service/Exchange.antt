-- ===== src/Service/Exchange.antt =====
-- The API of the event loop's server as its clients see it: requests over HTTP to the loop of
-- src/chatroom_server_epoll.cpp, and the responses that they read.
use chatroom_server.Prelude.{
  ℕ, ◌<◌, ◌≡◌, ◌≢◌, ◌∙◌, ap, refl, true, false, Bytes, bytes, lacks, Lacks, length, All, List, [],
  ◌∷◌, some, arith,
}
use chatroom_server.Platform.{Platform}
use chatroom_server.Platform.Monad.{World, returned}
use chatroom_server.Http.Encode.{insert_all}
use chatroom_server.Http.Printed.{IsField, request_text}
use chatroom_server.Reactor.Fds.{get, get-erase}
use chatroom_server.Reactor.Channel.{Channel}
use chatroom_server.Reactor.EventLoop.{remove_channel}
use chatroom_server.Epoll.Routes.{json_reply, setup_routes}
use chatroom_server.Epoll.Connections.{
  Callback, Server, Event, RecvResult, received, give_up, send, handle,
}
use chatroom_server.Epoll.Runs.{Reachable}
use chatroom_server.Epoll.Lines.{spaceless, IsWord, IsLine}
use chatroom_server.Epoll.Reading.{read_reply}
use chatroom_server.Epoll.Exchange.{handle-request_text}
use chatroom_server.Agreement.{
  Route, register, login, create_room, join_room, rooms, send_message, messages, users, logout,
  epoll,
}
use chatroom_server.Agreement.Routing.{method_of, path_of, json, epoll-route}

-- A readable event without error, whose first `recv` gives a printed request to this route, in less
-- than the buffer's 8192 bytes.
pub record Asks (event : Event) (r : Route) (body : Bytes) : Type 0 where
  pub header : Bytes × Bytes
  pub headers : List (Bytes × Bytes)
  pub more : List RecvResult
  pub comes :
      event.recvs ≡ received (request_text (method_of r) (path_of r) [] header headers body) ∷ more
  pub short : length (request_text (method_of r) (path_of r) [] header headers body) < 8192
  pub is_field : IsField header
  pub are_fields : All IsField headers
  pub is_line : IsLine header
  pub are_lines : All IsLine headers
  pub readable : event.events.epollin ≡ true
  pub fine : event.events.epollerr ≡ false

-- A client in the event loop.
pub record Connected (fd : ℕ) (s : Server) : Type 0 where
  pub client : fd ≢ s.listen_fd
  pub its_channel : Channel Callback
  pub there : get fd s.event_loop.channels ≡ some its_channel

words : Unit {0}
unfolding bytes spaceless lacks
words = tt

pub method_of-IsWord : (r : Route) → IsWord (method_of r)
unfolding words
method_of-IsWord register = (λ e. ground arith, refl)
method_of-IsWord login = (λ e. ground arith, refl)
method_of-IsWord create_room = (λ e. ground arith, refl)
method_of-IsWord join_room = (λ e. ground arith, refl)
method_of-IsWord rooms = (λ e. ground arith, refl)
method_of-IsWord send_message = (λ e. ground arith, refl)
method_of-IsWord messages = (λ e. ground arith, refl)
method_of-IsWord users = (λ e. ground arith, refl)
method_of-IsWord logout = (λ e. ground arith, refl)

pub path_of-IsWord : (r : Route) → IsWord (path_of r)
unfolding words
path_of-IsWord register = (λ e. ground arith, refl)
path_of-IsWord login = (λ e. ground arith, refl)
path_of-IsWord create_room = (λ e. ground arith, refl)
path_of-IsWord join_room = (λ e. ground arith, refl)
path_of-IsWord rooms = (λ e. ground arith, refl)
path_of-IsWord send_message = (λ e. ground arith, refl)
path_of-IsWord messages = (λ e. ground arith, refl)
path_of-IsWord users = (λ e. ground arith, refl)
path_of-IsWord logout = (λ e. ground arith, refl)

json-Lacks : Lacks 13 (bytes "application/json")
unfolding words
json-Lacks = refl

-- Another client stays in the event loop.
pub give_up-Connected :
    (fd other takes : ℕ) (response : Bytes) (s : Server)
    → other ≢ fd
    → Connected other s
    → Connected other (give_up fd (send fd takes response s))
unfolding give_up send remove_channel
give_up-Connected fd other takes response s ne c = record {
  client = c.client;
  its_channel = c.its_channel;
  there = ground (arith, get-erase fd other s.event_loop.channels, c.there);
}

module _ (P : Platform) (dir : Bytes) where
  open P.sqlite use {Db}

  -- Each of the nine API routes over HTTP: in every reachable state, a client in the event loop
  -- that asks as in `Asks` for a route whose handler returns a text is sent one response, as far as
  -- `send` takes it, and from the whole response it reads the status 200 and exactly this text; the database changes as the handler changes it,
  -- and the connection is given up.
  pub handle-api :
      (event : Event) (r : Route) (body text : Bytes) (s : Server) (w w' : World Db)
      → Reachable P dir (setup_routes P) s
      → Connected event.fd s
      → Asks event r body
      → epoll P r body w ≡ (returned text, w')
      → (response : Bytes) × (handle P dir (setup_routes P) event s w
          ≡ (returned (give_up event.fd (send event.fd event.send_takes response s)), w'))
        × (read_reply response ≡ some (200, text))
  handle-api event r body text s w w' reachable c a answers =
      handle-request_text P dir (setup_routes P) event c.its_channel s w w' (method_of r)
        (path_of r) [] a.header a.headers body a.more (json_reply text) reachable c.client c.there
        a.readable a.fine a.comes a.short (method_of-IsWord r) (path_of-IsWord r) a.is_field
        a.are_fields a.is_line a.are_lines
        (epoll-route P dir r (insert_all (a.header ∷ a.headers) []) body w ∙ ap json answers)
        json-Lacks
