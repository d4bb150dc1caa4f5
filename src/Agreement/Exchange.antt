-- ===== src/Agreement/Exchange.antt =====
-- The same request to both servers, src/chatroom_server.cpp over src/http/http_server.cpp and
-- src/chatroom_server_epoll.cpp, as their clients see it.
use chatroom_server.Prelude.{Bytes, [], ◌∷◌}
use chatroom_server.Platform.{Platform}
use chatroom_server.Http.Request.{HttpRequest}
use chatroom_server.Http.Encode.{insert_all}
use chatroom_server.Http.Printed.{request_text}
use chatroom_server.Threaded.Routes as threaded_routes
use chatroom_server.Epoll.Routes as epoll_routes
use chatroom_server.Epoll.Connections.{Server, Event}
use chatroom_server.Agreement.{Route}
use chatroom_server.Agreement.Routing.{method_of, path_of}
use chatroom_server.Service.Exchange.{Asks}

-- The request that the thread pool's server parses.
abbrev pub parsed_request :
    {event : Event} (r : Route) (body : Bytes) → Asks event r body → HttpRequest
parsed_request r body a = record {
  method = method_of r;
  path = path_of r;
  body = body;
  headers = insert_all (a.header ∷ a.headers) [];
  query_params = [];
}

abbrev pub asked_text : {event : Event} (r : Route) (body : Bytes) → Asks event r body → Bytes
asked_text r body a = request_text (method_of r) (path_of r) [] a.header a.headers body
