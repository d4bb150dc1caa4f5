-- ===== src/Epoll/Exchange.antt =====
-- One exchange of the event loop's server: a client prints a request, the loop serves it, and the
-- client reads the response (src/chatroom_server_epoll.cpp).
use chatroom_server.Prelude.{
  ℕ, ◌<◌, ◌≡◌, ◌≢◌, ◌∙◌, ap, refl, true, false, Bytes, Lacks, length, lt→ltb, All, List, [], ◌∷◌,
  some,
}
use chatroom_server.Platform.{Platform}
use chatroom_server.Platform.Monad.{World, returned}
use chatroom_server.Http.Server.{Handlers}
use chatroom_server.Http.Encode.{insert_all}
use chatroom_server.Http.Printed.{IsField, target, request_text}
use chatroom_server.Reactor.Fds.{get}
use chatroom_server.Reactor.Channel.{Channel}
use chatroom_server.Reactor.EventLoop.{callbacks_of}
use chatroom_server.Epoll.Http.{ParsedRequest, parse_http_request, make_http_response}
use chatroom_server.Epoll.Routes.{Handler, Reply, route}
use chatroom_server.Epoll.Connections.{
  Callback, Server, Event, RecvResult, received, client_event, recv_loop, give_up, send, answer,
  handle_client_event, handle, run_callback, run_callbacks,
}
use chatroom_server.Epoll.Calls.{callbacks_of-readable}
use chatroom_server.Epoll.Runs.{Reachable, Reachable-Consistent}
use chatroom_server.Epoll.Lines.{IsWord, IsLine}
use chatroom_server.Epoll.Parsed.{parse_http_request-request_text}
use chatroom_server.Epoll.Reading.{read_reply, read_reply-make_http_response}

-- A text that comes at once, and is shorter than the buffer.
recv_loop-received :
    (text : Bytes) (more : List RecvResult)
    → length text < 8192
    → recv_loop (received text ∷ more) [] ≡ some text
unfolding recv_loop
recv_loop-received text more h = rw (lt→ltb (length text) 8192 h) refl

module _ (P : Platform) (dir : Bytes) where
  open P.sqlite use {Db}

  module _ (handlers : Handlers (Handler Db)) where
    abbrev reply_text : Reply → Bytes
    reply_text reply = make_http_response reply.resp_body reply.content_type 200

    answer-parsed :
        (text : Bytes) (request : ParsedRequest) (reply : Reply) (w w' : World Db)
        → parse_http_request text ≡ some request
        → route P dir handlers request w ≡ (returned reply, w')
        → answer P dir handlers text w ≡ (returned (reply_text reply), w')
    unfolding answer
    answer-parsed text request reply w w' e e' = rw (answer, e, e') refl

    handle_client_event-answer :
        (fd : ℕ) (recvs : List RecvResult) (takes : ℕ) (text response : Bytes) (s : Server)
        (w w' : World Db)
        → recv_loop recvs [] ≡ some text
        → answer P dir handlers text w ≡ (returned response, w')
        → handle_client_event P dir handlers fd recvs takes s w
          ≡ (returned (give_up fd (send fd takes response s)), w')
    unfolding handle_client_event
    handle_client_event-answer fd recvs takes text response s w w' e e' =
        rw (handle_client_event, e, e') refl

    handle-client :
        (event : Event) (s s' : Server) (w w' : World Db)
        → callbacks_of event.fd event.events s.event_loop ≡ client_event event.fd ∷ []
        → handle_client_event P dir handlers event.fd event.recvs event.send_takes s w
          ≡ (returned s', w')
        → handle P dir handlers event s w ≡ (returned s', w')
    unfolding handle run_callbacks run_callback
    handle-client event s s' w w' calls e = rw (handle, calls, e) refl

    -- In every reachable state, a client in the event loop whose printed request comes at once, in
    -- less than the buffer's 8192 bytes, with a readable event and no error: if the route of that
    -- method, target, headers and body gives a reply, then the loop calls `send` with one text, of which the client gets the bytes that
    -- `send` takes, and gives the connection up; from the whole text a client reads the status 200
    -- and exactly the body of the reply. The request is as in `parse_http_request-request_text`, and the content type has no
    -- CR.
    pub handle-request_text :
        (event : Event) (c : Channel Callback) (s : Server) (w w' : World Db) (method path : Bytes)
        (params : List (Bytes × Bytes)) (h : Bytes × Bytes) (hs : List (Bytes × Bytes))
        (content : Bytes) (more : List RecvResult) (reply : Reply)
        → Reachable P dir handlers s
        → event.fd ≢ s.listen_fd
        → get event.fd s.event_loop.channels ≡ some c
        → event.events.epollin ≡ true
        → event.events.epollerr ≡ false
        → event.recvs ≡ received (request_text method path params h hs content) ∷ more
        → length (request_text method path params h hs content) < 8192
        → IsWord method
        → IsWord (target path params)
        → IsField h
        → All IsField hs
        → IsLine h
        → All IsLine hs
        → route P dir handlers
            (record {
              method = method;
              path = target path params;
              headers = insert_all (h ∷ hs) [];
              body = content;
            })
            w
          ≡ (returned reply, w')
        → Lacks 13 reply.content_type
        → (response : Bytes) × (handle P dir handlers event s w
            ≡ (returned (give_up event.fd (send event.fd event.send_takes response s)), w'))
          × (read_reply response ≡ some (200, reply.resp_body))
    handle-request_text event c s w w' method path params h hs content more reply r ne e readable
          fine comes short wm wp f fs l ls routed type_line =
        let text = request_text method path params h hs content in
        let parsed =
          parse_http_request-request_text method path params h hs content wm wp f fs l ls in
        let got = ap (λ rs. recv_loop rs []) comes ∙ recv_loop-received text more short in
        let calls =
          callbacks_of-readable event s c (Reachable-Consistent P dir handlers s r) ne e readable
            fine in
        (
          reply_text reply,
          handle-client event s _ w w' calls (
              handle_client_event-answer event.fd event.recvs event.send_takes text
                (reply_text reply) s w w' got (answer-parsed text _ reply w w' parsed routed)),
          read_reply-make_http_response 200 reply.content_type reply.resp_body type_line,
        )
