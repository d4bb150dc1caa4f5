-- ===== src/Platform/Sockets.antt =====
-- The system calls that open a listening socket, as the constructors of
-- src/chatroom_server_epoll.cpp and src/http/http_server.cpp make them.
use chatroom_server.Prelude.{ℕ, ◌+◌, ◌-◌, ◌*◌, ◌/◌, ◌%◌, Bool, Bytes, List, Option, ℤ, pos, negsuc}

-- What the calls return: a descriptor, if `socket` succeeds, and whether the others do. `bind` gets
-- the member `sin_port`.
pub record SocketCalls : Type 0 where
  pub socket : Option ℕ
  pub set_option : Bool
  pub bind : ℕ → Bool
  pub listen : Bool

-- A descriptor that listens, with its `sin_port`; or an exception with its text, and the
-- descriptors that were opened and not closed before it.
pub data Opening : Type 0 where
  opened : ℕ → ℕ → Opening
  refused : Bytes → List ℕ → Opening

-- The conversion of an `int` to `uint16_t`.
unfoldable pub uint16 : ℤ → ℕ
uint16 (pos n) = n % 65_536
uint16 (negsuc n) = 65_535 - n % 65_536

-- `htons` on a little-endian machine, and what the network reads there.
unfoldable pub htons : ℕ → ℕ
htons n = n % 256 * 256 + n / 256
