-- ===== src/Tests/OverHttp.antt =====
-- Two clients of the event loop's server: one registers and the other logs in, and one sends a
-- message that the other reads.
use mathlib.Core.List.{Perm}
use chatroom_server.Prelude.{
  ℕ, ◌<◌, length, take, ◌≡◌, ◌++◌, refl, false, Bytes, bytes, List, [], ◌∷◌, map, some, pos, arith,
}
use chatroom_server.Sql.{Row}
use chatroom_server.Sql.Tables.{Tables, no_rows, has, named, keep, message_in}
use chatroom_server.Sql.Laws.{Ascending}
use chatroom_server.Sql.Engine.{engine_laws}
use chatroom_server.Platform.Monad.{World, returned}
use chatroom_server.Platform.Sample.{sample}
use chatroom_server.Http.Printed.{field_lines, request_text}
use chatroom_server.Reactor.Fds.{get, put, count}
use chatroom_server.Reactor.Channel.{
  channel, set_events, set_revents, set_read_callback, handle_event,
}
use chatroom_server.Reactor.EventLoop.{add_fd, add_channel, callbacks_of}
use chatroom_server.Db.Texts.{since_of}
use chatroom_server.Db.Messages.{row_message}
use chatroom_server.Db.Listings.{message_json}
use chatroom_server.Epoll.Connections.{
  Server, Event, readable, received, client_channel, start, accept_client, handle_new_connection,
  run_callback, run_callbacks, handle,
}
use chatroom_server.Epoll.Lifetime.{AllFresh}
use chatroom_server.Epoll.Calls.{constructed}
use chatroom_server.Epoll.Runs.{Reachable, started, handled}
use chatroom_server.Epoll.Reading.{read_reply}
use chatroom_server.Agreement.{register, login, send_message, messages, Route}
use chatroom_server.Agreement.Routing.{method_of, path_of}
use chatroom_server.Service.Accounts.{login_info}
use chatroom_server.Service.Exchange.{Asks, Connected}
use chatroom_server.Service.Conversation.{message_at}
use chatroom_server.Service.OverHttp.{register-login-http, send-messages-http}
use chatroom_server.Tests.Connections.{handlers}
use chatroom_server.Tests.Conversation.{reading_body, sending, reading, yo-IsPlain}
use chatroom_server.Tests.Exchange.{host, host-IsField, host-IsLine}
use chatroom_server.Tests.Fixture.{
  ann, empty, empty-Holds, no_rows-UniqueKeys, ann-IsPlain, pw-IsPlain, hall-IsPlain, account_body,
  account_fields, message_body, world, filled, world-Holds, filled-UniqueKeys,
}

abbrev connecting : Event
connecting = record {
  fd = 3;
  events = readable;
  accepts = 7 ∷ 8 ∷ [];
  recvs = [];
  send_takes = 1000;
}

abbrev pub two : Server
two = accept_client 8 (accept_client 7 (start (constructed 3)))

run : Unit {0}
unfolding get put count channel set_events set_revents set_read_callback handle_event add_fd
    add_channel callbacks_of start accept_client handle_new_connection run_callback run_callbacks
    handle AllFresh
run = tt

pub two-Reachable : Reachable sample (bytes "static") handlers two
unfolding run
two-Reachable =
    handled connecting (start (constructed 3)) two empty empty (started 3)
      ((ground arith, refl), ((ground arith, refl), tt)) refl

pub first-Connected : Connected 7 two
unfolding run
first-Connected = record {
  client = λ e. ground arith;
  its_channel = client_channel 7;
  there = refl;
}

second-Connected : Connected 8 two
unfolding run
second-Connected = record {
  client = λ e. ground arith;
  its_channel = client_channel 8;
  there = refl;
}

abbrev pub asks : ℕ → Route → Bytes → Event
asks fd r body = record {
  fd = fd;
  events = readable;
  accepts = [];
  recvs = received (request_text (method_of r) (path_of r) [] host [] body) ∷ [];
  send_takes = 1000;
}

unfoldable pub texts : Unit {0}
unfolding bytes request_text field_lines
texts = tt

asks-Asks :
    (fd : ℕ) (r : Route) (body : Bytes)
    → length (request_text (method_of r) (path_of r) [] host [] body) < 8192
    → Asks (asks fd r body) r body
asks-Asks fd r body short = record {
  header = host;
  headers = [];
  more = [];
  comes = refl;
  short = short;
  is_field = host-IsField;
  are_fields = tt;
  is_line = host-IsLine;
  are_lines = tt;
  readable = refl;
  fine = refl;
}

register-Asks : Asks (asks 7 register account_body) register account_body
unfolding texts
register-Asks = asks-Asks 7 register account_body (omega arith)

login-Asks : Asks (asks 8 login account_body) login account_body
unfolding texts
login-Asks = asks-Asks 8 login account_body (omega arith)

send_message-Asks : Asks (asks 7 send_message message_body) send_message message_body
unfolding texts
send_message-Asks = asks-Asks 7 send_message message_body (omega arith)

messages-Asks : Asks (asks 8 messages reading_body) messages reading_body
unfolding texts
messages-Asks = asks-Asks 8 messages reading_body (omega arith)

free : has (named ann) no_rows.users ≡ false
unfolding has
free = refl

register-login-http_example :
    (s' s'' : Server) × (w' w'' : World Tables) × (response response' : Bytes) × (handle sample
        (bytes "static")
        handlers
        (asks 7 register account_body)
        two
        empty
      ≡ (returned s', w'))
    × (handle sample (bytes "static") handlers (asks 8 login account_body) s' w'
        ≡ (returned s'', w''))
    × (s''.sent ≡ (8, take 1000 response') ∷ (7, take 1000 response) ∷ two.sent)
    × (read_reply response ≡ some (200, bytes "{\"status\":\"success\"}"))
    × (read_reply response' ≡ some (200, (login_info sample ann).written))
unfolding AllFresh
register-login-http_example =
    register-login-http sample (bytes "static") engine_laws (asks 7 register account_body)
      (asks 8 login account_body) account_body ann (bytes "pw") (login_info sample ann).written two
      empty no_rows two-Reachable tt first-Connected second-Connected (λ e. ground arith)
      register-Asks login-Asks empty-Holds no_rows-UniqueKeys free ann-IsPlain pw-IsPlain
      account_fields refl

send-messages-http_example :
    (s' : Server) × (w' : World Tables) × (response : Bytes) × (rows : List Row) × (handle sample
        (bytes "static")
        handlers
        (asks 7 send_message message_body)
        two
        world
      ≡ (returned s', w'))
    × (read_reply response ≡ some (200, bytes "{\"status\":\"success\"}"))
    × (s'.sent ≡ (7, take 1000 response) ∷ two.sent)
    × Perm (map (row_message sample) rows) (
        map
          (message_json sample)
          (keep (message_in (bytes "hall") (since_of (pos 4))) filled.messages)
        ++ message_json sample (message_at sample world (bytes "hall") ann (bytes "yo")) ∷ [])
    × Ascending rows
    × ((text : Bytes)
        → sample.json.dump (sample.json.array (map (row_message sample) rows)) ≡ some text
        → (s'' : Server) × (w'' : World Tables) × (response' : Bytes) × (handle sample
              (bytes "static")
              handlers
              (asks 8 messages reading_body)
              s'
              w'
            ≡ (returned s'', w''))
          × (s''.sent ≡ (8, take 1000 response') ∷ s'.sent)
          × (read_reply response' ≡ some (200, text)))
unfolding AllFresh
send-messages-http_example =
    send-messages-http sample (bytes "static") engine_laws (asks 7 send_message message_body)
      (asks 8 messages reading_body) message_body reading_body (bytes "hall") ann (bytes "yo") ann
      (pos 4) two world filled two-Reachable tt first-Connected second-Connected (λ e. ground arith)
      send_message-Asks messages-Asks world-Holds filled-UniqueKeys (omega arith, tt) hall-IsPlain
      ann-IsPlain yo-IsPlain ann-IsPlain sending reading (omega arith) refl
