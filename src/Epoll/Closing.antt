-- ===== src/Epoll/Closing.antt =====
-- What holds of the descriptors in every run of ChatroomServerEpoll
-- (src/chatroom_server_epoll.cpp).
use chatroom_server.Prelude.{
  ℕ, suc, ◌+◌, ◌≡◌, ◌≢◌, ◌++◌, refl, true, false, not, ◌&&◌, ◌||◌, Bytes, [], ◌∷◌, some,
  Option-cases, inl, inr, arith,
}
use chatroom_server.Platform.{Platform}
use chatroom_server.Platform.Monad.{World, returned}
use chatroom_server.Http.Server.{Handlers}
use chatroom_server.Reactor.Fds.{get, get-erase, found, count, count-append}
use chatroom_server.Reactor.Channel.{Channel}
use chatroom_server.Reactor.EventLoop.{remove_channel}
use chatroom_server.Epoll.Routes.{Handler}
use chatroom_server.Epoll.Connections.{
  Callback, Server, Event, handle, run_callbacks, send, give_up, cleanup_pending_channels,
}
use chatroom_server.Epoll.Lifetime.{Consistent, close_all-same, close_all-closed}
use chatroom_server.Epoll.Calls.{
  callbacks_of-none, callbacks_of-readable, callbacks_of-error, GivenUp, silent, answered,
}
use chatroom_server.Epoll.Runs.{Reachable, handle-GivenUp, Reachable-Consistent}

GivenUp-closed :
    (fd : ℕ) (s s' : Server) (c : Channel Callback)
    → fd ≢ s.listen_fd
    → get fd s.event_loop.channels ≡ some c
    → Consistent s
    → GivenUp fd s s'
    → (found (get fd s'.event_loop.channels) ≡ 0)
      × (count fd (cleanup_pending_channels s').closed ≡ suc (count fd s.closed))
unfolding cleanup_pending_channels give_up send remove_channel
GivenUp-closed fd s _ c ne e h silent = (
  ground (arith, get-erase fd fd s.event_loop.channels),
  ground (
    arith,
    close_all-closed (s.pending_delete_fds ++ fd ∷ []) (give_up fd s) fd,
    count-append fd fd s.pending_delete_fds,
    h.loop_eq fd ne,
    e,
  ),
)
GivenUp-closed fd s _ c ne e h (answered takes text) = (
  ground (arith, get-erase fd fd s.event_loop.channels),
  ground (
    arith,
    close_all-closed (s.pending_delete_fds ++ fd ∷ []) (give_up fd (send fd takes text s)) fd,
    count-append fd fd s.pending_delete_fds,
    h.loop_eq fd ne,
    e,
  ),
)

module _ (P : Platform) (dir : Bytes) where
  open P.sqlite use {Db}

  module _ (handlers : Handlers (Handler Db)) where
    -- In every reachable state, a client's descriptor has been closed exactly as often as `accept`
    -- returned it, or once less, and then it has its client channel; a client channel is in the event
    -- loop or, exactly once, in the list of descriptors to close, never in both.
    pub Reachable-closed :
        (s : Server) (fd : ℕ)
        → Reachable P dir handlers s
        → fd ≢ s.listen_fd
        → (count fd s.accepted ≡ count fd s.closed + found (get fd s.client_channels))
          × (found (get fd s.event_loop.channels) + count fd s.pending_delete_fds
              ≡ found (get fd s.client_channels))
    Reachable-closed s fd r ne =
        let h = Reachable-Consistent P dir handlers s r in (h.closed_eq fd, h.loop_eq fd ne)

    -- Once a connection is given up, an event for its descriptor later in the same batch does nothing.
    pub handle-pending :
        (s : Server) (event : Event) (w : World Db)
        → Reachable P dir handlers s
        → event.fd ≢ s.listen_fd
        → count event.fd s.pending_delete_fds ≢ 0
        → handle P dir handlers event s w ≡ (returned s, w)
    unfolding handle run_callbacks
    handle-pending s event w r ne waits =
        let h = Reachable-Consistent P dir handlers s r in
        elim (Option-cases (get event.fd s.event_loop.channels)) [
          | inl e ↦ rw (callbacks_of-none event.fd event.events s.event_loop e) refl
          | inr (c, e) ↦ ground (arith, h.loop_eq event.fd ne, e)
        ]

    -- A readable event without error on a client in the event loop: when its handlers return, the
    -- connection has left the event loop, and the next cleanup closes its descriptor once.
    pub handle-closed :
        (s s' : Server) (event : Event) (c : Channel Callback) (w w' : World Db)
        → Reachable P dir handlers s
        → event.fd ≢ s.listen_fd
        → get event.fd s.event_loop.channels ≡ some c
        → event.events.epollin ≡ true
        → event.events.epollerr ≡ false
        → handle P dir handlers event s w ≡ (returned s', w')
        → (found (get event.fd s'.event_loop.channels) ≡ 0)
          × (count event.fd (cleanup_pending_channels s').closed ≡ suc (count event.fd s.closed))
    handle-closed s s' event c w w' r ne e readable fine returns =
        let h = Reachable-Consistent P dir handlers s r in
        let calls = callbacks_of-readable event s c h ne e readable fine in
        GivenUp-closed event.fd s s' c ne e h
          (handle-GivenUp P dir handlers event s s' w w' calls returns)

    -- An event with an error, or a hang-up without input, on a client in the event loop calls
    -- nothing: the client stays in the event loop, and its descriptor is not put on the list of
    -- those to close.
    pub handle-error :
        (s : Server) (event : Event) (c : Channel Callback) (w : World Db)
        → Reachable P dir handlers s
        → event.fd ≢ s.listen_fd
        → get event.fd s.event_loop.channels ≡ some c
        → (event.events.epollerr || (event.events.epollhup && not event.events.epollin)) ≡ true
        → handle P dir handlers event s w ≡ (returned s, w)
    unfolding handle run_callbacks
    handle-error s event c w r ne e error =
        let h = Reachable-Consistent P dir handlers s r in
        rw (callbacks_of-error event s c h ne e error) refl

    -- After a cleanup no descriptor waits to be closed, and a client's descriptor is open, that is
    -- accepted once more than closed, exactly if the event loop has its channel.
    pub cleanup_pending_channels-closed :
        (s : Server) (fd : ℕ)
        → Reachable P dir handlers s
        → fd ≢ s.listen_fd
        → (count fd (cleanup_pending_channels s).pending_delete_fds ≡ 0)
          × (count fd s.accepted
              ≡ count fd (cleanup_pending_channels s).closed
                + found (get fd (cleanup_pending_channels s).event_loop.channels))
    unfolding cleanup_pending_channels count
    cleanup_pending_channels-closed s fd r ne =
        let h = Reachable-Consistent P dir handlers s r in
        (
          refl,
          ground (
            arith,
            close_all-same s.pending_delete_fds s,
            close_all-closed s.pending_delete_fds s fd,
            h.closed_eq fd,
            h.loop_eq fd ne,
          ),
        )
