-- ===== src/Epoll/Lifetime.antt =====
-- The life of a descriptor in ChatroomServerEpoll (src/chatroom_server_epoll.cpp): from `accept` to
-- `close`.
use chatroom_server.Prelude.{
  ℕ, ◌+◌, ◌≡◌, ◌≢◌, refl, List, [], ◌∷◌, some, if◌then◌else◌, ◌==◌, arith,
}
use chatroom_server.Reactor.Fds.{get, erase, get-put, get-erase, found, count, count-append}
use chatroom_server.Reactor.Channel.{Channel, channel, set_events, set_read_callback}
use chatroom_server.Reactor.EventLoop.{add_channel, remove_channel}
use chatroom_server.Epoll.Connections.{
  Callback, Server, listen_channel, client_channel, accept_client, handle_new_connection, give_up,
  close_all, cleanup_pending_channels,
}

-- Every descriptor has been closed as often as it was accepted, but for the one that is open and has
-- its client channel. A client channel is in the event loop or, once, waits to be closed. The
-- channel of a descriptor has the callback for it.
pub record Consistent (s : Server) : Type 0 where
  pub loop_eq :
      (fd : ℕ)
      → fd ≢ s.listen_fd
      → found (get fd s.event_loop.channels) + count fd s.pending_delete_fds
        ≡ found (get fd s.client_channels)
  pub closed_eq :
      (fd : ℕ) → count fd s.accepted ≡ count fd s.closed + found (get fd s.client_channels)
  pub listen_eq :
      found (get s.listen_fd s.client_channels) + count s.listen_fd s.pending_delete_fds ≡ 0
  pub channel_eq :
      (fd : ℕ) (c : Channel Callback)
      → get fd s.event_loop.channels ≡ some c
      → c ≡ (if fd == s.listen_fd then listen_channel fd else client_channel fd)

-- The system does not return a descriptor that is open.
abbrev pub IsFresh : ℕ → Server → Type 0
IsFresh fd s = (fd ≢ s.listen_fd) × (count fd s.accepted ≡ count fd s.closed)

unfoldable pub AllFresh : List ℕ → Server → Type 0
AllFresh [] s = Unit
AllFresh (fd ∷ fds) s = IsFresh fd s × AllFresh fds (accept_client fd s)

clients : Unit {0}
unfolding accept_client give_up add_channel remove_channel channel set_events set_read_callback
    count
clients = tt

accept_client-Consistent :
    (fd : ℕ) (s : Server) → IsFresh fd s → Consistent s → Consistent (accept_client fd s)
unfolding clients
accept_client-Consistent fd s (ne, fresh) h = record {
  loop_eq = λ j nj. ground (
    arith,
    get-put fd j (client_channel fd) s.event_loop.channels,
    get-put fd j (client_channel fd) s.client_channels,
    h.loop_eq j nj,
    h.closed_eq fd,
  );
  closed_eq = λ j.
      ground
        (arith, get-put fd j (client_channel fd) s.client_channels, h.closed_eq j, h.closed_eq fd);
  listen_eq =
      ground (arith, get-put fd s.listen_fd (client_channel fd) s.client_channels, h.listen_eq);
  channel_eq = λ j c e.
      ground (arith, get-put fd j (client_channel fd) s.event_loop.channels, h.channel_eq j c);
}

pub give_up-Consistent :
    (fd : ℕ) (s : Server) (c : Channel Callback)
    → fd ≢ s.listen_fd
    → get fd s.event_loop.channels ≡ some c
    → Consistent s
    → Consistent (give_up fd s)
unfolding clients
give_up-Consistent fd s c ne e h = record {
  loop_eq = λ j nj. ground (
    arith,
    get-erase fd j s.event_loop.channels,
    count-append j fd s.pending_delete_fds,
    h.loop_eq j nj,
  );
  closed_eq = h.closed_eq;
  listen_eq = ground (arith, count-append s.listen_fd fd s.pending_delete_fds, h.listen_eq);
  channel_eq = λ j c' e'. ground (arith, get-erase fd j s.event_loop.channels, h.channel_eq j c');
}

pub handle_new_connection-Consistent :
    (fds : List ℕ) (s : Server)
    → AllFresh fds s
    → Consistent s
    → Consistent (handle_new_connection fds s)
unfolding handle_new_connection AllFresh
handle_new_connection-Consistent [] s fresh h = h
handle_new_connection-Consistent (fd ∷ fds) s (f, fs) h =
    handle_new_connection-Consistent fds (accept_client fd s) fs (accept_client-Consistent fd s f h)

-- What `close_all` does to the members.
close_all-clients :
    (fds : List ℕ) (s : Server) (j : ℕ)
    → found (get j (close_all fds s).client_channels)
      ≡ (if count j fds == 0 then found (get j s.client_channels) else 0)
unfolding close_all count
close_all-clients [] s j = refl
close_all-clients (fd ∷ fds) s j = ground (
  arith,
  close_all-clients fds
      (record s { client_channels = erase fd s.client_channels; closed = fd ∷ s.closed }) j,
  get-erase fd j s.client_channels,
)

pub close_all-closed :
    (fds : List ℕ) (s : Server) (j : ℕ)
    → count j (close_all fds s).closed ≡ count j fds + count j s.closed
unfolding close_all count
close_all-closed [] s j = omega arith
close_all-closed (fd ∷ fds) s j = ground (
  arith,
  close_all-closed fds
      (record s { client_channels = erase fd s.client_channels; closed = fd ∷ s.closed }) j,
)

pub close_all-same :
    (fds : List ℕ) (s : Server)
    → ((close_all fds s).event_loop ≡ s.event_loop)
      × (((close_all fds s).accepted ≡ s.accepted) × ((close_all fds s).listen_fd ≡ s.listen_fd))
unfolding close_all
close_all-same [] s = (refl, (refl, refl))
close_all-same (fd ∷ fds) s = close_all-same fds _

pub cleanup-Consistent : (s : Server) → Consistent s → Consistent (cleanup_pending_channels s)
unfolding cleanup_pending_channels count
cleanup-Consistent s h =
    let fds = s.pending_delete_fds in
    let same = close_all-same fds s in
    record {
      loop_eq = λ j nj. ground (arith, same, close_all-clients fds s j, h.loop_eq j);
      closed_eq = λ j. ground (
        arith,
        same,
        close_all-clients fds s j,
        close_all-closed fds s j,
        h.closed_eq j,
        h.loop_eq j,
        h.listen_eq,
      );
      listen_eq = ground (arith, same, close_all-clients fds s s.listen_fd, h.listen_eq);
      channel_eq = λ j c e. ground (arith, same, h.channel_eq j c);
    }
