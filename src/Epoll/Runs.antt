-- ===== src/Epoll/Runs.antt =====
-- The runs of ChatroomServerEpoll (src/chatroom_server_epoll.cpp) on the event loop, as sequences of
-- events and cleanups in any order.
use chatroom_server.Prelude.{
  ℕ, ◌≡◌, ◌∙◌, refl, sym, subst, inl, inr, Option-cases, Bytes, List, [], ◌∷◌, arith,
}
use chatroom_server.Platform.{Platform}
use chatroom_server.Platform.Monad.{World, Outcome, returned, thrown, pure, continue}
use chatroom_server.Http.Server.{Handlers}
use chatroom_server.Reactor.EventLoop.{callbacks_of}
use chatroom_server.Epoll.Routes.{Handler}
use chatroom_server.Epoll.Connections.{
  Callback, Server, Event, client_event, start, handle_new_connection, give_up, send, RecvResult,
  recv_loop, answer, handle_client_event, run_callback, run_callbacks, handle,
  cleanup_pending_channels,
}
use chatroom_server.Epoll.Lifetime.{
  Consistent, AllFresh, handle_new_connection-Consistent, cleanup-Consistent,
}
use chatroom_server.Epoll.Calls.{
  constructed, GivenUp, silent, answered, GivenUp-Consistent, started-Consistent, Effect, dropped,
  connected, served, Called, nothing, accepting, serving, callbacks_of-Called,
}

returned-inj :
    {Db : Type 0} (s s' : Server) (w w' : World Db)
    → ◌≡◌ {A = Outcome Server × World Db} (returned s, w) (returned s', w')
    → s ≡ s'
returned-inj s s' w w' e = ground (arith, e)

bind-pure : {Db : Type 0} (o : Outcome Server × World Db) → continue pure o ≡ o
bind-pure (returned s, w) = refl
bind-pure (thrown, w) = refl

module _ (P : Platform) (dir : Bytes) where
  open P.sqlite use {Db}

  module _ (handlers : Handlers (Handler Db)) where
    continue-GivenUp :
        (fd takes : ℕ) (s s' : Server) (w' : World Db) (o : Outcome Bytes × World Db)
        → continue (λ text. pure (give_up fd (send fd takes text s))) o ≡ (returned s', w')
        → GivenUp fd s s'
    continue-GivenUp fd takes s s' w' (returned text, v) h =
        subst (GivenUp fd s) (returned-inj _ s' v w' h) (answered takes text)
    continue-GivenUp fd takes s s' w' (thrown, v) h = ground (arith, h)

    pub handle_client_event-GivenUp :
        (fd : ℕ) (recvs : List RecvResult) (takes : ℕ) (s s' : Server) (w w' : World Db)
        → handle_client_event P dir handlers fd recvs takes s w ≡ (returned s', w')
        → GivenUp fd s s'
    unfolding handle_client_event
    handle_client_event-GivenUp fd recvs takes s s' w w' h =
        elim (Option-cases (recv_loop recvs [])) [
          | inl q ↦
              let run : handle_client_event P dir handlers fd recvs takes s w
                  ≡ (returned (give_up fd s), w) =
                rw (handle_client_event, q) refl in
              subst (GivenUp fd s) (returned-inj (give_up fd s) s' w w' (sym run ∙ h)) silent
          | inr (request, q) ↦
              let run : handle_client_event P dir handlers fd recvs takes s w
                  ≡ continue (λ text. pure (give_up fd (send fd takes text s)))
                      (answer P dir handlers request w) =
                rw (handle_client_event, q) refl in
              continue-GivenUp fd takes s s' w' (answer P dir handlers request w) (sym run ∙ h)
        ]

    called-Effect :
        (event : Event) (s s' : Server) (w w' : World Db) (cs : List Callback)
        → Called event s cs
        → run_callbacks P dir handlers event cs s w ≡ (returned s', w')
        → Effect event s s'
    unfolding run_callbacks run_callback
    called-Effect event s s' w w' _ nothing e =
        subst (Effect event s) (returned-inj s s' w w' e) dropped
    called-Effect event s s' w w' _ (accepting l) e =
        subst (Effect event s) (returned-inj (handle_new_connection event.accepts s) s' w w' e)
          (connected l)
    called-Effect event s s' w w' _ (serving c ne q) e = served c s' ne q (
        handle_client_event-GivenUp event.fd event.recvs event.send_takes s s' w w'
          (sym (bind-pure _) ∙ e))

    pub handle-GivenUp :
        (event : Event) (s s' : Server) (w w' : World Db)
        → callbacks_of event.fd event.events s.event_loop ≡ client_event event.fd ∷ []
        → handle P dir handlers event s w ≡ (returned s', w')
        → GivenUp event.fd s s'
    unfolding handle run_callbacks run_callback
    handle-GivenUp event s s' w w' calls e =
        let run : handle P dir handlers event s w
            ≡ handle_client_event P dir handlers event.fd event.recvs event.send_takes s w =
          rw (handle, calls) (bind-pure _) in
        handle_client_event-GivenUp event.fd event.recvs event.send_takes s s' w w' (sym run ∙ e)

    pub handle-Effect :
        (event : Event) (s s' : Server) (w w' : World Db)
        → Consistent s
        → handle P dir handlers event s w ≡ (returned s', w')
        → Effect event s s'
    unfolding handle
    handle-Effect event s s' w w' h e =
        called-Effect event s s' w w' (callbacks_of event.fd event.events s.event_loop)
          (callbacks_of-Called event s h) e

    -- The states of a run: started, after an event whose handlers return, after a cleanup.
    pub data Reachable : Server → Type 0 where
      started : (fd : ℕ) → Reachable (start (constructed fd))
      handled :
          (event : Event) (s s' : Server) (w w' : World Db)
          → Reachable s
          → AllFresh event.accepts s
          → handle P dir handlers event s w ≡ (returned s', w')
          → Reachable s'
      cleaned : (s : Server) → Reachable s → Reachable (cleanup_pending_channels s)

    Effect-Consistent :
        (event : Event) (s s' : Server)
        → AllFresh event.accepts s
        → Consistent s
        → Effect event s s'
        → Consistent s'
    Effect-Consistent event s _ fresh h dropped = h
    Effect-Consistent event s _ fresh h (connected l) =
        handle_new_connection-Consistent event.accepts s fresh h
    Effect-Consistent event s s' fresh h (served c _ ne q g) =
        GivenUp-Consistent event.fd s s' c ne q h g

    pub Reachable-Consistent : (s : Server) → Reachable s → Consistent s
    Reachable-Consistent _ (started fd) = started-Consistent fd
    Reachable-Consistent s' (handled event s _ w w' r fresh e) =
        let h = Reachable-Consistent s r in
        Effect-Consistent event s s' fresh h (handle-Effect event s s' w w' h e)
    Reachable-Consistent _ (cleaned s r) = cleanup-Consistent s (Reachable-Consistent s r)
