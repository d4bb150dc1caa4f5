-- ===== src/Reactor/EventLoop.antt =====
-- EventLoop and Epoller (src/reactor/event_loop.cpp, src/reactor/epoller.cpp). The kernel's
-- interest list of the epoll instance is part of the state; `epoll_ctl` fails on a descriptor
-- that is already there (ADD) or is not there (MOD, DEL).
use chatroom_server.Prelude.{ℕ, Bool, true, false, List, [], ◌∷◌, Option, none, some}
use chatroom_server.Reactor.Fds.{get, put, erase}
use chatroom_server.Reactor.Channel.{Channel, Events, set_revents, handle_event}

pub record Epoller : Type 0 where
  -- The interest list, and the member `fdEventsMap_`.
  pub interest : List (ℕ × Events)
  pub fd_events_map : List (ℕ × Events)

abbrev pub if_absent : Option Events → Epoller → Epoller → Bool × Epoller
if_absent none changed e = (true, changed)
if_absent (some old) changed e = (false, e)

abbrev pub if_present : Option Events → Epoller → Epoller → Bool × Epoller
if_present none changed e = (false, e)
if_present (some old) changed e = (true, changed)

abbrev pub assigned : ℕ → Events → Epoller → Epoller
assigned fd events e = record {
  interest = put fd events e.interest;
  fd_events_map = put fd events e.fd_events_map;
}

unfoldable pub add_fd : ℕ → Events → Epoller → Bool × Epoller
add_fd fd events e = if_absent (get fd e.interest) (assigned fd events e) e

unfoldable pub mod_fd : ℕ → Events → Epoller → Bool × Epoller
mod_fd fd events e = if_present (get fd e.interest) (assigned fd events e) e

unfoldable pub del_fd : ℕ → Epoller → Bool × Epoller
del_fd fd e =
    if_present (get fd e.interest)
      (record { interest = erase fd e.interest; fd_events_map = erase fd e.fd_events_map }) e

-- What `close(fd)` does to the interest list: the kernel drops a descriptor that is closed.
unfoldable pub close_fd : ℕ → Epoller → Epoller
close_fd fd e = record e { interest = erase fd e.interest }

pub record EventLoop {ℓ} (C : Type ℓ) : Type ℓ where
  pub running : Bool
  pub epoller : Epoller
  pub channels : List (ℕ × Channel C)

module _ {ℓ} {C : Type ℓ} where
  unfoldable pub add_channel : Channel C → EventLoop C → EventLoop C
  add_channel c l = record l {
    channels = put c.fd c l.channels;
    epoller = (add_fd c.fd c.events l.epoller).1;
  }

  unfoldable pub update_channel : Channel C → EventLoop C → EventLoop C
  update_channel c l = record l {
    channels = put c.fd c l.channels;
    epoller = (mod_fd c.fd c.events l.epoller).1;
  }

  unfoldable pub remove_channel : ℕ → EventLoop C → EventLoop C
  remove_channel fd l = record l {
    channels = erase fd l.channels;
    epoller = (del_fd fd l.epoller).1;
  }

  -- `quit`: the loop over the channels, and the cleared map.
  unfoldable pub delete_all : List (ℕ × Channel C) → Epoller → Epoller
  delete_all [] e = e
  delete_all ((fd, c) ∷ rest) e = delete_all rest (del_fd fd e).1

  unfoldable pub quit : EventLoop C → EventLoop C
  quit l = record { running = false; epoller = delete_all l.channels l.epoller; channels = [] }

  -- The body of the loop over the active events: the channel with its `revents`, and the
  -- callbacks that it calls. An event of a descriptor without a channel is dropped.
  unfoldable pub callbacks_of : ℕ → Events → EventLoop C → List C
  callbacks_of fd events l = elim (get fd l.channels) [
    | none ↦ []
    | some c ↦ handle_event (set_revents c events)
  ]
