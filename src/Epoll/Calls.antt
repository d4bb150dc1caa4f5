-- ===== src/Epoll/Calls.antt =====
-- Which callbacks an event calls in ChatroomServerEpoll (src/chatroom_server_epoll.cpp), and that
-- giving a connection up keeps the descriptors consistent.
use chatroom_server.Prelude.{
  ℕ, ◌≡◌, ◌≢◌, ◌∙◌, ap, refl, sym, subst, ◌⊎◌, inl, inr, true, false, not, ◌&&◌, ◌||◌, Bool-cases,
  Option-cases, Bytes, List, [], ◌∷◌, none, some, ◌==◌, arith,
}
use chatroom_server.Reactor.Fds.{get, put, count}
use chatroom_server.Reactor.Channel.{
  Channel, Events, channel, set_events, set_read_callback, set_revents, handle_event,
}
use chatroom_server.Reactor.EventLoop.{EventLoop, add_channel, callbacks_of}
use chatroom_server.Epoll.Connections.{
  Callback, Server, Event, new_connection, client_event, listen_channel, client_channel, start,
  handle_new_connection, give_up, send,
}
use chatroom_server.Epoll.Lifetime.{Consistent, give_up-Consistent}

-- The server as the constructor leaves it.
abbrev pub constructed : ℕ → Server
constructed listen_fd = record {
  listen_fd = listen_fd;
  event_loop = record {
    running = false;
    epoller = record { interest = []; fd_events_map = [] };
    channels = [];
  };
  client_channels = [];
  pending_delete_fds = [];
  accepted = [];
  closed = [];
  sent = [];
}

pub started-Consistent : (fd : ℕ) → Consistent (start (constructed fd))
unfolding start add_channel channel set_events set_read_callback get put count
started-Consistent fd = record {
  loop_eq = λ j nj. ground arith;
  closed_eq = λ j. ground arith;
  listen_eq = ground arith;
  channel_eq = λ j c e. ground arith;
}

-- Only the read callbacks are set.
listen-callbacks :
    (fd : ℕ) (events : Events)
    → (handle_event (set_revents (listen_channel fd) events) ≡ [])
      ⊎ (handle_event (set_revents (listen_channel fd) events) ≡ new_connection ∷ [])
unfolding handle_event set_revents channel set_events set_read_callback
listen-callbacks fd events = ground arith

client-callbacks :
    (fd : ℕ) (events : Events)
    → (handle_event (set_revents (client_channel fd) events) ≡ [])
      ⊎ (handle_event (set_revents (client_channel fd) events) ≡ client_event fd ∷ [])
unfolding handle_event set_revents channel set_events set_read_callback
client-callbacks fd events = ground arith

-- A connection is given up, with or without an answer.
pub data GivenUp (fd : ℕ) (s : Server) : Server → Type 0 where
  silent : GivenUp fd s (give_up fd s)
  answered : (takes : ℕ) (text : Bytes) → GivenUp fd s (give_up fd (send fd takes text s))

-- What an event can come to.
pub data Effect (event : Event) (s : Server) : Server → Type 0 where
  dropped : Effect event s s
  connected : event.fd ≡ s.listen_fd → Effect event s (handle_new_connection event.accepts s)
  served :
      (c : Channel Callback) (s' : Server)
      → event.fd ≢ s.listen_fd
      → get event.fd s.event_loop.channels ≡ some c
      → GivenUp event.fd s s'
      → Effect event s s'

pub GivenUp-Consistent :
    (fd : ℕ) (s s' : Server) (c : Channel Callback)
    → fd ≢ s.listen_fd
    → get fd s.event_loop.channels ≡ some c
    → Consistent s
    → GivenUp fd s s'
    → Consistent s'
unfolding send
GivenUp-Consistent fd s _ c ne q h silent = give_up-Consistent fd s c ne q h
GivenUp-Consistent fd s _ c ne q h (answered takes text) =
    give_up-Consistent fd (send fd takes text s) c ne q (record {
      loop_eq = h.loop_eq;
      closed_eq = h.closed_eq;
      listen_eq = h.listen_eq;
      channel_eq = h.channel_eq;
    })

pub callbacks_of-none :
    (fd : ℕ) (events : Events) (l : EventLoop Callback)
    → get fd l.channels ≡ none
    → callbacks_of fd events l ≡ []
unfolding callbacks_of
callbacks_of-none fd events l e = rw (callbacks_of, e) refl

callbacks_of-some :
    (fd : ℕ) (events : Events) (l : EventLoop Callback) (c : Channel Callback)
    → get fd l.channels ≡ some c
    → callbacks_of fd events l ≡ handle_event (set_revents c events)
unfolding callbacks_of
callbacks_of-some fd events l c e = rw (callbacks_of, e) refl

-- What the loop calls for an event.
pub data Called (event : Event) (s : Server) : List Callback → Type 0 where
  nothing : Called event s []
  accepting : event.fd ≡ s.listen_fd → Called event s (new_connection ∷ [])
  serving :
      (c : Channel Callback)
      → event.fd ≢ s.listen_fd
      → get event.fd s.event_loop.channels ≡ some c
      → Called event s (client_event event.fd ∷ [])

pub callbacks_of-Called :
    (event : Event) (s : Server)
    → Consistent s
    → Called event s (callbacks_of event.fd event.events s.event_loop)
callbacks_of-Called event s h = elim (Option-cases (get event.fd s.event_loop.channels)) [
  | inl e ↦
      subst (Called event s) (sym (callbacks_of-none event.fd event.events s.event_loop e)) nothing
  | inr (c, e) ↦
      let calls = callbacks_of-some event.fd event.events s.event_loop c e in
      elim (Bool-cases (event.fd == s.listen_fd)) [
        | inl l ↦
            let is_listen : c ≡ listen_channel event.fd =
              ground (arith, h.channel_eq event.fd c e, l) in
            let same = calls ∙ ap (λ d. handle_event (set_revents d event.events)) is_listen in
            elim (listen-callbacks event.fd event.events) [
              | inl q ↦ subst (Called event s) (sym (same ∙ q)) nothing
              | inr q ↦ subst (Called event s) (sym (same ∙ q)) (accepting (ground (arith, l)))
            ]
        | inr n ↦
            let is_client : c ≡ client_channel event.fd =
              ground (arith, h.channel_eq event.fd c e, n) in
            let same = calls ∙ ap (λ d. handle_event (set_revents d event.events)) is_client in
            elim (client-callbacks event.fd event.events) [
              | inl q ↦ subst (Called event s) (sym (same ∙ q)) nothing
              | inr q ↦ subst (Called event s) (sym (same ∙ q)) (serving c (ground (arith, n)) e)
            ]
      ]
]

-- The callbacks for an event of a client in the event loop.
callbacks_of-client :
    (event : Event) (s : Server) (c : Channel Callback)
    → Consistent s
    → event.fd ≢ s.listen_fd
    → get event.fd s.event_loop.channels ≡ some c
    → callbacks_of event.fd event.events s.event_loop
      ≡ handle_event (set_revents (client_channel event.fd) event.events)
callbacks_of-client event s c h ne e =
    let is_client : c ≡ client_channel event.fd = ground (arith, h.channel_eq event.fd c e, ne) in
    callbacks_of-some event.fd event.events s.event_loop c e
    ∙ ap (λ d. handle_event (set_revents d event.events)) is_client

pub callbacks_of-readable :
    (event : Event) (s : Server) (c : Channel Callback)
    → Consistent s
    → event.fd ≢ s.listen_fd
    → get event.fd s.event_loop.channels ≡ some c
    → event.events.epollin ≡ true
    → event.events.epollerr ≡ false
    → callbacks_of event.fd event.events s.event_loop ≡ client_event event.fd ∷ []
unfolding handle_event set_revents channel set_events set_read_callback
callbacks_of-readable event s c h ne e readable fine =
    callbacks_of-client event s c h ne e ∙ ground (arith, readable, fine)

pub callbacks_of-error :
    (event : Event) (s : Server) (c : Channel Callback)
    → Consistent s
    → event.fd ≢ s.listen_fd
    → get event.fd s.event_loop.channels ≡ some c
    → (event.events.epollerr || (event.events.epollhup && not event.events.epollin)) ≡ true
    → callbacks_of event.fd event.events s.event_loop ≡ []
unfolding handle_event set_revents channel set_events set_read_callback
callbacks_of-error event s c h ne e error =
    callbacks_of-client event s c h ne e ∙ ground (arith, error)
