-- ===== src/Reactor/Channel.antt =====
-- Channel (src/reactor/channel.cpp), over the type of its callbacks.
use chatroom_server.Prelude.{
  ℕ, Bool, false, not, ◌&&◌, ◌||◌, ◌++◌, List, [], ◌∷◌, Option, none, some, if◌then◌else◌,
}

-- The bits of an event mask that `handleEvent` tests.
pub record Events : Type 0 where
  pub epollin : Bool
  pub epollpri : Bool
  pub epollout : Bool
  pub epollerr : Bool
  pub epollhup : Bool

pub record Channel {ℓ} (C : Type ℓ) : Type ℓ where
  pub fd : ℕ
  pub events : Events
  pub revents : Events
  pub read_callback : Option C
  pub write_callback : Option C
  pub close_callback : Option C
  pub error_callback : Option C

abbrev pub no_events : Events
no_events = record {
  epollin = false;
  epollpri = false;
  epollout = false;
  epollerr = false;
  epollhup = false;
}

module _ {ℓ} {C : Type ℓ} where
  -- The constructor.
  unfoldable pub channel : ℕ → Channel C
  channel fd = record {
    fd = fd;
    events = no_events;
    revents = no_events;
    read_callback = none;
    write_callback = none;
    close_callback = none;
    error_callback = none;
  }

  unfoldable pub set_events : Channel C → Events → Channel C
  set_events c events = record c { events = events }

  unfoldable pub set_revents : Channel C → Events → Channel C
  set_revents c revents = record c { revents = revents }

  unfoldable pub set_read_callback : Channel C → C → Channel C
  set_read_callback c cb = record c { read_callback = some cb }

  -- `if (cb) cb();`
  abbrev pub call : Option C → List C
  call none = []
  call (some cb) = cb ∷ []

  -- The callbacks that are called, in order.
  unfoldable pub handle_event : Channel C → List C
  handle_event c =
      let r = c.revents in
      if r.epollhup && not r.epollin
      then call c.close_callback
      else if r.epollerr
      then call c.error_callback
      else (if r.epollin || r.epollpri then call c.read_callback else [])
        ++ (if r.epollout then call c.write_callback else [])
