-- ===== src/Epoll/Connections.antt =====
-- The connections of ChatroomServerEpoll (src/chatroom_server_epoll.cpp): `start`,
-- `handleNewConnection`, `handleClientEvent`, `cleanupPendingChannels`, and the iterations of
-- `EventLoop::loop` (src/reactor/event_loop.cpp) that call them. Log lines are left out.
use chatroom_server.Prelude.{
  ℕ, ◌++◌, true, Bytes, bytes, length, take, List, [], ◌∷◌, Option, none, some, if◌then◌else◌, ltb,
}
use chatroom_server.Platform.{Platform}
use chatroom_server.Platform.Monad.{M, pure, ◌>>=◌}
use chatroom_server.Http.Server.{Handlers}
use chatroom_server.Reactor.Fds.{put, erase}
use chatroom_server.Reactor.Channel.{
  Channel, Events, no_events, channel, set_events, set_read_callback,
}
use chatroom_server.Reactor.EventLoop.{EventLoop, add_channel, remove_channel, callbacks_of}
use chatroom_server.Epoll.Http.{parse_http_request, make_http_response}
use chatroom_server.Epoll.Routes.{Handler, route}

-- The two lambdas that the server sets as read callbacks.
pub data Callback : Type 0 where
  new_connection : Callback
  client_event : ℕ → Callback

-- The members, and the system calls made so far: descriptors that `accept` returned and that
-- were closed, latest first, and the bytes that `send` took.
pub record Server : Type 0 where
  pub listen_fd : ℕ
  pub event_loop : EventLoop Callback
  pub client_channels : List (ℕ × Channel Callback)
  pub pending_delete_fds : List ℕ
  pub accepted : List ℕ
  pub closed : List ℕ
  pub sent : List (ℕ × Bytes)

-- EPOLLIN, and EPOLLIN | EPOLLET; edge triggering does not matter to `handleEvent`.
abbrev pub readable : Events
readable = record no_events { epollin = true }

abbrev pub listen_channel : ℕ → Channel Callback
listen_channel fd = set_read_callback (set_events (channel fd) readable) new_connection

abbrev pub client_channel : ℕ → Channel Callback
client_channel fd = set_read_callback (set_events (channel fd) readable) (client_event fd)

-- `start` before the loop, and `running_ = true`, with which the loop begins.
unfoldable pub start : Server → Server
start s = record s {
  event_loop = record (add_channel (listen_channel s.listen_fd) s.event_loop) { running = true };
}

-- One round of the loop of `handleNewConnection`, after `accept` returned a descriptor.
unfoldable pub accept_client : ℕ → Server → Server
accept_client client_fd s = record s {
  client_channels = put client_fd (client_channel client_fd) s.client_channels;
  event_loop = add_channel (client_channel client_fd) s.event_loop;
  accepted = client_fd ∷ s.accepted;
}

-- The loop, over the descriptors that `accept` returns before it fails.
unfoldable pub handle_new_connection : List ℕ → Server → Server
handle_new_connection [] s = s
handle_new_connection (client_fd ∷ more) s = handle_new_connection more (accept_client client_fd s)

-- What `recv` returns: bytes, the end of the input, no data now, or another error.
pub data RecvResult : Type 0 where
  received : Bytes → RecvResult
  ended : RecvResult
  would_block : RecvResult
  failed : RecvResult

-- The loop over `recv`: the request, or `none` where it gives the connection up. After the last
-- result given, `recv` would block.
unfoldable pub recv_loop : List RecvResult → Bytes → Option Bytes
recv_loop [] request = some request
recv_loop (received buf ∷ more) request =
    let rest = recv_loop more (request ++ buf) in
    if ltb (length buf) 8192 then some (request ++ buf) else rest
recv_loop (ended ∷ more) request = none
recv_loop (would_block ∷ more) request = some request
recv_loop (failed ∷ more) request = none

-- `eventLoop_->removeChannel(clientFd); pendingDeleteFds_.push_back(clientFd);`
unfoldable pub give_up : ℕ → Server → Server
give_up client_fd s = record s {
  event_loop = remove_channel client_fd s.event_loop;
  pending_delete_fds = s.pending_delete_fds ++ client_fd ∷ [];
}

-- A call of `send`, which takes the first bytes of the text, none if it fails; what it returns is
-- ignored.
unfoldable pub send : ℕ → ℕ → Bytes → Server → Server
send client_fd send_takes text s = record s { sent = (client_fd, take send_takes text) ∷ s.sent }

unfoldable pub close_all : List ℕ → Server → Server
close_all [] s = s
close_all (fd ∷ fds) s =
    close_all fds
      (record s { client_channels = erase fd s.client_channels; closed = fd ∷ s.closed })

unfoldable pub cleanup_pending_channels : Server → Server
cleanup_pending_channels s = record (close_all s.pending_delete_fds s) { pending_delete_fds = [] }

-- An event of `epoll_wait`, with what `accept` and `recv` then give, and how many bytes `send` can
-- take.
pub record Event : Type 0 where
  pub fd : ℕ
  pub events : Events
  pub accepts : List ℕ
  pub recvs : List RecvResult
  pub send_takes : ℕ

module _ (P : Platform) (static_dir_path : Bytes) where
  open P.sqlite use {Db}

  -- The text to send for a request.
  unfoldable pub answer : Handlers (Handler Db) → Bytes → M Db Bytes
  answer handlers request = elim (parse_http_request request) [
    | none ↦
        pure
          (make_http_response (bytes "{\"error\":\"Bad Request\"}") (bytes "application/json") 400)
    | some parsed ↦ do
      reply ← route P static_dir_path handlers parsed
      pure (make_http_response reply.resp_body reply.content_type 200)
  ]

  unfoldable pub handle_client_event :
      Handlers (Handler Db) → ℕ → List RecvResult → ℕ → Server → M Db Server
  handle_client_event handlers client_fd recvs send_takes s = elim (recv_loop recvs []) [
    | none ↦ pure (give_up client_fd s)
    | some request ↦ do
      text ← answer handlers request
      pure (give_up client_fd (send client_fd send_takes text s))
  ]

  unfoldable pub run_callback : Handlers (Handler Db) → Event → Callback → Server → M Db Server
  run_callback handlers event new_connection s = pure (handle_new_connection event.accepts s)
  run_callback handlers event (client_event fd) s =
      handle_client_event handlers fd event.recvs event.send_takes s

  unfoldable pub run_callbacks :
      Handlers (Handler Db) → Event → List Callback → Server → M Db Server
  run_callbacks handlers event [] s = pure s
  run_callbacks handlers event (c ∷ cs) s = do
    s' ← run_callback handlers event c s
    run_callbacks handlers event cs s'

  -- One round of the loop over the active events.
  unfoldable pub handle : Handlers (Handler Db) → Event → Server → M Db Server
  handle handlers event s =
      run_callbacks handlers event (callbacks_of event.fd event.events s.event_loop) s
