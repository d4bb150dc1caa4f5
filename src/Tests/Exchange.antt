-- ===== src/Tests/Exchange.antt =====
-- A client of the event loop's server asks for a page.
use chatroom_server.Prelude.{◌≡◌, refl, Bytes, bytes, bytes_eq, lacks, Lacks, [], ◌∷◌, some, arith}
use chatroom_server.Platform.Monad.{returned}
use chatroom_server.Platform.Sample.{sample}
use chatroom_server.Table.{lookup, insert}
use chatroom_server.Http.Find.{starts_with}
use chatroom_server.Http.Server.{add_handler}
use chatroom_server.Http.Request.{trim, erase_front, erase_back}
use chatroom_server.Http.Encode.{insert_all}
use chatroom_server.Http.Printed.{IsField, field_lines, request_text}
use chatroom_server.Reactor.Fds.{get, put}
use chatroom_server.Reactor.Channel.{channel, set_events, set_read_callback}
use chatroom_server.Reactor.EventLoop.{add_fd, add_channel}
use chatroom_server.Epoll.Http.{ends_with, get_content_type, parse_http_request}
use chatroom_server.Epoll.Static.{handle_static_file}
use chatroom_server.Epoll.Routes.{Reply, static_reply, route, register_handler, setup_routes}
use chatroom_server.Epoll.Connections.{
  Event, received, readable, client_channel, start, accept_client, send, give_up, handle,
}
use chatroom_server.Epoll.Lines.{spaceless, IsWord, IsLine}
use chatroom_server.Epoll.Parsed.{parse_http_request-request_text}
use chatroom_server.Epoll.Reading.{read_reply}
use chatroom_server.Epoll.Exchange.{handle-request_text}
use chatroom_server.Tests.Connections.{handlers, connected, connected-Reachable}
use chatroom_server.Tests.Fixture.{world}

abbrev pub host : Bytes × Bytes
host = (bytes "Host", bytes "chat")

pub host-IsField : IsField host
unfolding bytes lacks trim erase_front erase_back
host-IsField = record {
  key_colon = refl;
  key_return = refl;
  value_return = refl;
  key_trimmed = refl;
  value_trimmed = refl;
}

pub host-IsLine : IsLine host
unfolding bytes lacks
host-IsLine = record { key_feed = refl; value_feed = refl; value_blank = refl }

get-IsWord : IsWord (bytes "GET")
unfolding bytes spaceless
get-IsWord = (λ e. ground arith, refl)

page-IsWord : IsWord (bytes "/login.html")
unfolding bytes spaceless
page-IsWord = (λ e. ground arith, refl)

abbrev asked : Bytes
asked = request_text (bytes "GET") (bytes "/login.html") [] host [] []

parse_http_request-request_text_example :
    parse_http_request asked
    ≡ some (record {
      method = bytes "GET";
      path = bytes "/login.html";
      headers = insert_all (host ∷ []) [];
      body = [];
    })
parse_http_request-request_text_example =
    parse_http_request-request_text (bytes "GET") (bytes "/login.html") [] host [] [] get-IsWord
      page-IsWord host-IsField tt host-IsLine tt

abbrev asking : Event
asking = record {
  fd = 7;
  events = readable;
  accepts = [];
  recvs = received asked ∷ [];
  send_takes = 1000;
}

abbrev page : Reply
page = static_reply sample (bytes "static") (bytes "/login.html")

page-routed :
    route sample
      (bytes "static")
      handlers
      (record {
        method = bytes "GET";
        path = bytes "/login.html";
        headers = insert_all (host ∷ []) [];
        body = [];
      })
      world
    ≡ (returned page, world)
unfolding route setup_routes register_handler add_handler lookup insert bytes bytes_eq
page-routed = refl

page-Lacks : Lacks 13 page.content_type
unfolding handle_static_file get_content_type ends_with starts_with bytes bytes_eq lacks
page-Lacks = refl

handle-request_text_example :
    (response : Bytes) × (handle sample (bytes "static") handlers asking connected world
      ≡ (returned (give_up 7 (send 7 1000 response connected)), world))
    × (read_reply response ≡ some (200, page.resp_body))
unfolding start accept_client add_channel channel set_events set_read_callback get put add_fd bytes
    lacks request_text field_lines
handle-request_text_example =
    handle-request_text sample (bytes "static") handlers asking (client_channel 7) connected world
      world (bytes "GET") (bytes "/login.html") [] host [] [] [] page connected-Reachable
      (λ e. ground arith) refl refl refl refl (omega arith) get-IsWord page-IsWord host-IsField tt
      host-IsLine tt page-routed page-Lacks
