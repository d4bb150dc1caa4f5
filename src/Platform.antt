-- ===== src/Platform.antt =====
-- What the server takes from outside the repository: SQLite, the JSON library, the system clock and
-- the file system. Also the state that its database calls thread, and the monad of its handlers.
pub mod Monad
pub mod Sample
pub mod Sockets
use chatroom_server.Prelude.{ℕ, ℤ, Bool, Bytes, List, Option}
use chatroom_server.Sql.{Sqlite}

-- nlohmann::json as the handlers use it.
pub record JsonLibrary : Type 1 where
  pub Json : Type 0
  -- `json::parse`; `none` when it throws.
  pub parse : Bytes → Option Json
  -- `j.contains(key)`; false for a value that is no object.
  pub contains : Json → Bytes → Bool
  -- `std::string s = j[key]` for a key that is there; `none` when the conversion throws.
  pub string_at : Json → Bytes → Option Bytes
  -- `j[key].is_null()` and `j[key].get<int64_t>()`; `none` when the conversion throws.
  pub null_at : Json → Bytes → Bool
  pub int_at : Json → Bytes → Option ℤ
  -- `j[key].get<bool>()`; `none` when the conversion throws.
  pub bool_at : Json → Bytes → Option Bool
  -- Values built from C++ values and initialiser lists.
  pub string : Bytes → Json
  pub integer : ℤ → Json
  pub boolean : Bool → Json
  pub array : List Json → Json
  pub object : List (Bytes × Json) → Json
  -- `j.dump()`; `none` when it throws, as it does for text that is not UTF-8.
  pub dump : Json → Option Bytes

-- The files under the static directory.
pub record FileSystem : Type 0 where
  -- `std::filesystem::path(dir) / rest`.
  pub join : Bytes → Bytes → Bytes
  pub exists : Bytes → Bool
  -- The contents through an `std::ifstream`; `none` when it cannot be opened.
  pub read : Bytes → Option Bytes

pub record Platform : Type 1 where
  pub sqlite : Sqlite
  pub json : JsonLibrary
  -- The tick counts that successive calls of `system_clock::now()` return, in nanoseconds.
  pub clock : ℕ → ℕ
  pub files : FileSystem
