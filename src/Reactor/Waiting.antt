-- ===== src/Reactor/Waiting.antt =====
-- `Epoller::wait` and the constructor of Epoller (src/reactor/epoller.cpp), and the events that a
-- round of `EventLoop::loop` (src/reactor/event_loop.cpp) handles.
use chatroom_server.Prelude.{
  ℕ, Bytes, bytes, length, take, List, [], ◌∷◌, Option, none, some, ℤ, pos, negsuc,
}
use chatroom_server.Reactor.EventLoop.{Epoller}

-- The constructor, after `epoll_create1`: the descriptor of an instance that watches nothing, or an
-- exception with its text.
pub data Creation : Type 0 where
  created : ℕ → Epoller → Creation
  failed_with : Bytes → Creation

unfoldable pub epoller : Option ℕ → Creation
epoller none = failed_with (bytes "Failed to create epoll instance")
epoller (some epoll_fd) = created epoll_fd (record { interest = []; fd_events_map = [] })

-- `kMaxEvents`
abbrev pub max_events : ℕ
max_events = 1024

-- What `epoll_wait` returns: events, perhaps none after the timeout, or an error.
pub data WaitResult {ℓ} (E : Type ℓ) : Type ℓ where
  ready : List E → WaitResult E
  failed : WaitResult E

module _ {ℓ} {E : Type ℓ} where
  -- The value that `wait` returns, and `activeEvents` after it.
  unfoldable pub wait : WaitResult E → List E → ℤ × List E
  wait (ready []) active_events = (pos 0, active_events)
  wait (ready (e ∷ es)) active_events = (pos (length (e ∷ es)), e ∷ es)
  wait failed active_events = (negsuc 0, active_events)

  -- The first `n` of them, which the loop handles.
  abbrev pub handled : ℤ × List E → List E
  handled (pos n, active_events) = take n active_events
  handled (negsuc n, active_events) = []

  -- A round of the loop up to its events: `activeEvents.clear()`, and `wait`.
  unfoldable pub round_events : WaitResult E → List E
  round_events r = handled (wait r [])
