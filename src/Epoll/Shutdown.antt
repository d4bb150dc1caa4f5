-- ===== src/Epoll/Shutdown.antt =====
-- What `stop` does to a run of ChatroomServerEpoll (src/chatroom_server_epoll.cpp), and that the loop
-- of src/reactor/event_loop.cpp then ends.
use chatroom_server.Prelude.{
  ℕ, ◌+◌, ◌≡◌, ◌≢◌, ◌++◌, ◌∙◌, refl, ap, Bytes, true, false, List, [], ◌∷◌, some, Bool-cases,
  if◌then◌else◌, inl, inr, arith,
}
use chatroom_server.Platform.{Platform}
use chatroom_server.Platform.Monad.{World, Outcome, returned, thrown, pure, ◌>>=◌, continue}
use chatroom_server.Http.Server.{Handlers}
use chatroom_server.Reactor.Fds.{get, found, count}
use chatroom_server.Reactor.EventLoop.{callbacks_of, delete_all, quit}
use chatroom_server.Reactor.Interest.{
  Mirrored, add_channel-Mirrored, remove_channel-Mirrored, quit-interest,
}
use chatroom_server.Epoll.Routes.{Handler}
use chatroom_server.Epoll.Connections.{
  Server, Event, start, accept_client, handle_new_connection, client_channel, listen_channel,
  give_up, send, cleanup_pending_channels, handle, run_callbacks,
}
use chatroom_server.Epoll.Lifetime.{close_all-same, close_all-closed}
use chatroom_server.Epoll.Calls.{
  constructed, GivenUp, silent, answered, Effect, dropped, connected, served,
}
use chatroom_server.Epoll.Runs.{
  Reachable, started, handled, cleaned, Reachable-Consistent, handle-Effect,
}
use chatroom_server.Epoll.Loop.{
  Application, close_listener, quit_loop, stop, signal_handler, Happening, event, signal, shut_down,
  happen, happen_all, round, loop,
}

abbrev Mirrors : Server → Type 0
Mirrors s = Mirrored s.event_loop

started-Mirrors : (fd : ℕ) → Mirrors (start (constructed fd))
unfolding start get
started-Mirrors fd =
    let h =
      add_channel-Mirrored (listen_channel fd) (constructed fd).event_loop
        (record { interest_eq = λ j. refl; map_eq = refl }) in
    record { interest_eq = h.interest_eq; map_eq = h.map_eq }

handle_new_connection-Mirrors :
    (fds : List ℕ) (s : Server) → Mirrors s → Mirrors (handle_new_connection fds s)
unfolding handle_new_connection accept_client
handle_new_connection-Mirrors [] s h = h
handle_new_connection-Mirrors (fd ∷ fds) s h =
    handle_new_connection-Mirrors fds (accept_client fd s)
      (add_channel-Mirrored (client_channel fd) s.event_loop h)

GivenUp-Mirrors : (fd : ℕ) (s s' : Server) → Mirrors s → GivenUp fd s s' → Mirrors s'
unfolding give_up send
GivenUp-Mirrors fd s _ h silent = remove_channel-Mirrored fd s.event_loop h
GivenUp-Mirrors fd s _ h (answered takes text) = remove_channel-Mirrored fd s.event_loop h

Effect-Mirrors : (e : Event) (s s' : Server) → Mirrors s → Effect e s s' → Mirrors s'
Effect-Mirrors e s _ h dropped = h
Effect-Mirrors e s _ h (connected l) = handle_new_connection-Mirrors e.accepts s h
Effect-Mirrors e s s' h (served c _ ne q g) = GivenUp-Mirrors e.fd s s' h g

module _ (P : Platform) (dir : Bytes) where
  open P.sqlite use {Db}

  module _ (handlers : Handlers (Handler Db)) where
    Reachable-Mirrors : (s : Server) → Reachable P dir handlers s → Mirrors s
    unfolding cleanup_pending_channels
    Reachable-Mirrors _ (started fd) = started-Mirrors fd
    Reachable-Mirrors s' (handled e s _ w w' r fresh q) =
        Effect-Mirrors e s s' (Reachable-Mirrors s r)
          (handle-Effect P dir handlers e s s' w w' (Reachable-Consistent P dir handlers s r) q)
    Reachable-Mirrors _ (cleaned s r) =
        let h = Reachable-Mirrors s r in
        let same = (close_all-same s.pending_delete_fds s).0 in
        record { interest_eq = λ j. rw same (h.interest_eq j); map_eq = rw same h.map_eq }

    -- In every reachable state, the kernel watches exactly the descriptors that have a channel in
    -- the event loop, and `fdEventsMap_` is the kernel's interest list.
    pub Reachable-interest :
        (s : Server) (fd : ℕ)
        → Reachable P dir handlers s
        → (found (get fd s.event_loop.epoller.interest) ≡ found (get fd s.event_loop.channels))
          × (s.event_loop.epoller.fd_events_map ≡ s.event_loop.epoller.interest)
    Reachable-interest s fd r = let h = Reachable-Mirrors s r in (h.interest_eq fd, h.map_eq)

    -- When `stop` is called in a reachable state, then after the round no channel is left and the
    -- kernel watches nothing, but a client's descriptor stays open exactly if the event loop had
    -- its channel: `stop` closes no connection, and the cleanup only those that were given up
    -- before.
    pub shut_down-open :
        (a : Application) (fd : ℕ)
        → Reachable P dir handlers a.server
        → fd ≢ a.server.listen_fd
        → ((shut_down a).server.event_loop.channels ≡ [])
          × (((shut_down a).server.event_loop.epoller.interest ≡ [])
              × (count fd a.server.accepted
                  ≡ count fd (shut_down a).server.closed
                    + found (get fd a.server.event_loop.channels)))
    unfolding shut_down signal_handler stop cleanup_pending_channels quit
    shut_down-open a fd r ne =
        let h = Reachable-Consistent P dir handlers a.server r in
        let loop_eq = h.loop_eq fd ne in
        let closed_eq = h.closed_eq fd in
        let pending = a.server.pending_delete_fds in
        let (watched, closed_watched) =
          quit-interest a.server.event_loop a.server.listen_fd (Reachable-Mirrors a.server r) in
        elim (Bool-cases a.listening) [
          | inl open_yet ↦
              let b = quit_loop (close_listener a.server) in
              let same = (close_all-same pending b).0 in
              rw open_yet (
                ap (λ l. l.channels) same,
                (
                  ap (λ l. l.epoller.interest) same ∙ closed_watched,
                  ground (arith, close_all-closed pending b fd, loop_eq, closed_eq),
                ),
              )
          | inr shut ↦
              let b = quit_loop a.server in
              let same = (close_all-same pending b).0 in
              rw shut (
                ap (λ l. l.channels) same,
                (
                  ap (λ l. l.epoller.interest) same ∙ watched,
                  ground (arith, close_all-closed pending b fd, loop_eq, closed_eq),
                ),
              )
        ]

    signalled-happen_all :
        (a : Application) (hs : List Happening) (w : World Db)
        → happen_all P dir handlers hs (signal_handler a) w ≡ (returned (signal_handler a), w)
    unfolding happen_all happen signal_handler stop quit delete_all handle run_callbacks
        callbacks_of get
    signalled-happen_all a [] w = refl
    signalled-happen_all a (event e ∷ hs) w = signalled-happen_all a hs w
    signalled-happen_all a (signal ∷ hs) w = signalled-happen_all a hs w

    -- The first of the events that come to an end, and those after it.
    continue-append :
        (hs more : List Happening) (a' : Application) (w' : World Db)
        (o : Outcome Application × World Db)
        → ((b : Application) (v : World Db)
            → happen_all P dir handlers hs b v ≡ (returned a', w')
            → happen_all P dir handlers (hs ++ more) b v ≡ happen_all P dir handlers more a' w')
        → continue (happen_all P dir handlers hs) o ≡ (returned a', w')
        → continue (happen_all P dir handlers (hs ++ more)) o ≡ happen_all P dir handlers more a' w'
    continue-append hs more a' w' (returned b, v) h e = h b v e
    continue-append hs more a' w' (thrown, v) h e = ground (arith, e)

    happen_all-append :
        (hs more : List Happening) (a a' : Application) (w w' : World Db)
        → happen_all P dir handlers hs a w ≡ (returned a', w')
        → happen_all P dir handlers (hs ++ more) a w ≡ happen_all P dir handlers more a' w'
    unfolding happen_all
    happen_all-append [] more a a' w w' e = ap (continue (happen_all P dir handlers more)) e
    happen_all-append (h ∷ hs) more a a' w w' e =
        continue-append hs more a' w' (happen P dir handlers h a w)
          (λ b v q. happen_all-append hs more b a' v w' q) e

    loop-stopped :
        (batches : List (List Happening)) (b : Application) (w : World Db)
        → b.server.event_loop.running ≡ false
        → loop P dir handlers batches b w ≡ (returned (some b), w)
    unfolding loop
    loop-stopped [] b w e = rw e refl
    loop-stopped (batch ∷ batches) b w e = rw e refl

    loop-round :
        (batch : List Happening) (batches : List (List Happening)) (a : Application) (w : World Db)
        → a.server.event_loop.running ≡ true
        → loop P dir handlers (batch ∷ batches) a w
          ≡ continue (loop P dir handlers batches) (round P dir handlers batch a w)
    unfolding loop
    loop-round batch batches a w e =
        ap
          (λ runs.
            (if runs
                then round P dir handlers batch a >>= loop P dir handlers batches
                else pure (some a))
              w)
          e

    shut_down-running : (a : Application) → (shut_down a).server.event_loop.running ≡ false
    unfolding shut_down signal_handler stop cleanup_pending_channels quit
    shut_down-running a =
        let b = signal_handler a in
        ap (λ l. l.running) (close_all-same b.server.pending_delete_fds b.server).0

    -- The loop runs through these batches, and still runs after them.
    pub data Rounds
        : List (List Happening) → Application → World Db → Application → World Db → Type 0 where
      none_yet : (a : Application) (w : World Db) → Rounds [] a w a w
      one_more :
          (batch : List Happening) (batches : List (List Happening)) (a b c : Application)
          (w v u : World Db)
          → a.server.event_loop.running ≡ true
          → round P dir handlers batch a w ≡ (returned b, v)
          → Rounds batches b v c u
          → Rounds (batch ∷ batches) a w c u

    pub loop-Rounds :
        (earlier batches : List (List Happening)) (a c : Application) (w u : World Db)
        → Rounds earlier a w c u
        → loop P dir handlers (earlier ++ batches) a w ≡ loop P dir handlers batches c u
    loop-Rounds _ batches _ _ _ _ (none_yet a w) = refl
    loop-Rounds _ batches _ _ _ _ (one_more batch more a b c w v u runs e rest) =
        loop-round batch (more ++ batches) a w runs
        ∙ ap (continue (loop P dir handlers (more ++ batches))) e
        ∙ loop-Rounds more batches b c v u rest

    -- A signal ends the loop, whatever else comes: when the events of a round up to the signal come
    -- to an end, what the batch has after it does nothing, no later round begins, and the loop
    -- returns after the cleanup of the round. The loop was running.
    pub loop-signal :
        (a a' : Application) (before after : List Happening) (batches : List (List Happening))
        (w w' : World Db)
        → a.server.event_loop.running ≡ true
        → happen_all P dir handlers before a w ≡ (returned a', w')
        → loop P dir handlers ((before ++ signal ∷ after) ∷ batches) a w
          ≡ (returned (some (shut_down a')), w')
    unfolding round shut_down happen_all happen
    loop-signal a a' before after batches w w' runs h =
        let all : happen_all P dir handlers (before ++ signal ∷ after) a w
            ≡ (returned (signal_handler a'), w') =
          happen_all-append before (signal ∷ after) a a' w w' h
          ∙ signalled-happen_all a' after w' in
        loop-round (before ++ signal ∷ after) batches a w runs
        ∙ ap
            (λ o.
              continue (loop P dir handlers batches)
                (continue (λ b. pure (record b { server = cleanup_pending_channels b.server })) o))
            all
        ∙ loop-stopped batches (shut_down a') w' (shut_down-running a')
