-- ===== src/Tests/Connections.antt =====
-- A run of the event loop's server: a client connects, sends a text that is no request, and gets an
-- event after it was given up.
use chatroom_server.Prelude.{suc, ◌+◌, ◌≡◌, refl, true, Bytes, bytes, bytes_eq, [], ◌∷◌, arith}
use chatroom_server.Platform.Monad.{returned}
use chatroom_server.Platform.Sample.{sample}
use chatroom_server.Sql.Tables.{Tables}
use chatroom_server.Http.Server.{Handlers}
use chatroom_server.Http.Find.{find, starts_with}
use chatroom_server.Reactor.Fds.{get, put, erase, found, count}
use chatroom_server.Reactor.Channel.{
  channel, set_events, set_revents, set_read_callback, handle_event,
}
use chatroom_server.Reactor.EventLoop.{add_fd, del_fd, add_channel, remove_channel, callbacks_of}
use chatroom_server.Epoll.Http.{parse_http_request, make_http_response}
use chatroom_server.Epoll.Routes.{Handler, setup_routes}
use chatroom_server.Epoll.Connections.{
  Server, Event, received, readable, client_channel, start, accept_client, handle_new_connection,
  recv_loop, give_up, send, cleanup_pending_channels, answer, handle_client_event, run_callback,
  run_callbacks, handle,
}
use chatroom_server.Epoll.Lifetime.{AllFresh}
use chatroom_server.Epoll.Calls.{constructed}
use chatroom_server.Epoll.Runs.{Reachable, started, handled}
use chatroom_server.Epoll.Closing.{Reachable-closed, handle-closed, handle-error}
use chatroom_server.Tests.Fixture.{world}

abbrev pub handlers : Handlers (Handler Tables)
handlers = setup_routes sample

abbrev pub connecting : Event
connecting = record { fd = 3; events = readable; accepts = 7 ∷ []; recvs = []; send_takes = 1000 }

abbrev pub asking : Event
asking = record {
  fd = 7;
  events = readable;
  accepts = [];
  recvs = received (bytes "hello") ∷ [];
  send_takes = 1000;
}

abbrev broken : Event
broken = record asking { events = record readable { epollerr = true } }

abbrev pub waiting : Server
waiting = start (constructed 3)

abbrev pub connected : Server
connected = accept_client 7 waiting

abbrev pub refusal : Bytes
refusal = make_http_response (bytes "{\"error\":\"Bad Request\"}") (bytes "application/json") 400

abbrev pub refused : Server
refused = give_up 7 (send 7 1000 refusal connected)

run : Unit {0}
unfolding bytes bytes_eq find starts_with parse_http_request get put erase count channel set_events
    set_revents set_read_callback handle_event add_fd del_fd add_channel remove_channel callbacks_of
    start accept_client handle_new_connection recv_loop give_up send answer handle_client_event
    run_callback run_callbacks handle AllFresh
run = tt

pub connected-Reachable : Reachable sample (bytes "static") handlers connected
unfolding run
connected-Reachable =
    handled connecting waiting connected world world (started 3) ((ground arith, refl), tt) refl

refused-Reachable : Reachable sample (bytes "static") handlers refused
unfolding run
refused-Reachable = handled asking connected refused world world connected-Reachable tt refl

Reachable-closed_example :
    (count 7 refused.accepted ≡ count 7 refused.closed + found (get 7 refused.client_channels))
    × (found (get 7 refused.event_loop.channels) + count 7 refused.pending_delete_fds
        ≡ found (get 7 refused.client_channels))
unfolding run
Reachable-closed_example =
    Reachable-closed sample (bytes "static") handlers refused 7 refused-Reachable
      (λ e. ground arith)

handle-closed_example :
    (found (get 7 refused.event_loop.channels) ≡ 0)
    × (count 7 (cleanup_pending_channels refused).closed ≡ suc (count 7 connected.closed))
unfolding run
handle-closed_example =
    handle-closed sample (bytes "static") handlers connected refused asking (client_channel 7) world
      world connected-Reachable (λ e. ground arith) refl refl refl refl

handle-error_example :
    handle sample (bytes "static") handlers broken connected world ≡ (returned connected, world)
unfolding run
handle-error_example =
    handle-error sample (bytes "static") handlers connected broken (client_channel 7) world
      connected-Reachable (λ e. ground arith) refl refl
