-- ===== src/Tests/Main.antt =====
-- The program on port 8080, with a client that connects and a signal after it.
use chatroom_server.Prelude.{
  ℕ, ◌≡◌, ◌+◌, ◌%◌, refl, true, bytes, bytes_eq, decimal, [], ◌∷◌, some, pos, arith,
}
use chatroom_server.Platform.Sample.{sample}
use chatroom_server.Platform.Monad.{World}
use chatroom_server.Sql.Tables.{Tables}
use chatroom_server.Http.Find.{find, starts_with}
use chatroom_server.Epoll.Http.{parse_http_request}
use chatroom_server.Platform.Sockets.{opened, htons}
use chatroom_server.Reactor.Fds.{get, put, erase, found, count}
use chatroom_server.Reactor.Channel.{
  channel, set_events, set_revents, set_read_callback, handle_event,
}
use chatroom_server.Reactor.EventLoop.{add_fd, del_fd, add_channel, remove_channel, callbacks_of}
use chatroom_server.Db.Connection.{database_manager}
use chatroom_server.Epoll.Connections.{
  start, accept_client, handle_new_connection, run_callback, run_callbacks, handle, recv_loop,
  give_up, send, answer, handle_client_event, cleanup_pending_channels, close_all,
}
use chatroom_server.Epoll.Loop.{
  Application, event, signal, stop, enter_loop, round, shut_down, happen, happen_all,
}
use chatroom_server.Epoll.Shutdown.{none_yet, one_more, Reachable-interest, shut_down-open}
use chatroom_server.Main.{Environment, started, settings, listen_socket, main}
use chatroom_server.Main.Starting.{settings-decimal, main-signal}
use chatroom_server.Tests.Connections.{
  handlers, connecting, asking, connected, refused, connected-Reachable,
}

abbrev environment : Environment
environment = record {
  logger_ready = true;
  epoll_ready = true;
  calls = record { socket = some 3; set_option = true; bind = λ sin_port. true; listen = true };
}

settings-decimal_example :
    (settings (decimal 70_000 ∷ bytes "static" ∷ bytes "chat.db" ∷ [])
      ≡ some (record {
        port = pos 70_000;
        static_dir_path = bytes "static";
        db_file_path = bytes "chat.db";
      }))
    × ((sin_port : ℕ) × (listen_socket environment.calls (pos 70_000) ≡ opened 3 sin_port)
        × (htons sin_port ≡ 70_000 % 65_536))
settings-decimal_example =
    settings-decimal 70_000 3 (bytes "static") (bytes "chat.db") environment.calls (omega arith)
      refl (λ sin_port. refl) refl

abbrev busy : Application
busy = record (enter_loop (started 3)) { server = connected }

abbrev answered : Application
answered = record busy { server = refused }

abbrev opened_db : World Tables
opened_db = database_manager sample (bytes "chat.db")

run : Unit {0}
unfolding get put channel set_events set_revents set_read_callback handle_event add_fd add_channel
    callbacks_of start accept_client handle_new_connection run_callback run_callbacks handle
    enter_loop happen happen_all round bytes bytes_eq find starts_with parse_http_request erase
    del_fd remove_channel recv_loop give_up send answer handle_client_event cleanup_pending_channels
    close_all
run = tt

main-signal_example :
    main sample environment
      (decimal 8080 ∷ bytes "static" ∷ bytes "chat.db" ∷ [])
      ((event connecting ∷ []) ∷ (event asking ∷ signal ∷ event connecting ∷ []) ∷ [])
    ≡ (some (record { code = 0; application = some (stop (shut_down answered)) }), opened_db)
unfolding run
main-signal_example =
    main-signal sample environment 3 8080 (bytes "static") (bytes "chat.db") (event asking ∷ [])
      (event connecting ∷ []) ((event connecting ∷ []) ∷ []) [] busy answered opened_db opened_db
      (omega arith) refl refl refl refl refl
      (one_more (event connecting ∷ []) [] (enter_loop (started 3)) busy busy opened_db opened_db
        opened_db refl refl (none_yet busy opened_db))
      refl refl

shut_down-open_example :
    ((shut_down busy).server.event_loop.channels ≡ [])
    × (((shut_down busy).server.event_loop.epoller.interest ≡ [])
        × (count 7 busy.server.accepted
            ≡ count 7 (shut_down busy).server.closed
              + found (get 7 busy.server.event_loop.channels)))
unfolding run
shut_down-open_example =
    shut_down-open sample (bytes "static") handlers busy 7 connected-Reachable (λ e. ground arith)

Reachable-interest_example :
    (found (get 7 connected.event_loop.epoller.interest)
      ≡ found (get 7 connected.event_loop.channels))
    × (connected.event_loop.epoller.fd_events_map ≡ connected.event_loop.epoller.interest)
Reachable-interest_example =
    Reachable-interest sample (bytes "static") handlers connected 7 connected-Reachable
