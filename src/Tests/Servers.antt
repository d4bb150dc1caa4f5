-- ===== src/Tests/Servers.antt =====
-- The two servers' routing and files at concrete values.
use chatroom_server.Prelude.{refl, bytes, bytes_eq, []}
use chatroom_server.Platform.Sample.{sample}
use chatroom_server.Http.Request.{HttpRequest}
use chatroom_server.Threaded.Static as threaded_static
use chatroom_server.Epoll.Static as epoll_static
use chatroom_server.Agreement.Static.{Same, static_agree}

abbrev rooms_request : HttpRequest
rooms_request = record {
  method = bytes "GET";
  path = bytes "/rooms";
  body = [];
  headers = [];
  query_params = [];
}

static_agree_example :
    Same
      (epoll_static.handle_static_file sample (bytes "static") (bytes "/"))
      (threaded_static.handle_static_file_request sample (bytes "static") (bytes "/"))
unfolding bytes bytes_eq threaded_static.ends_with threaded_static.requested_file_of
static_agree_example = static_agree sample (bytes "static") (bytes "/") refl
