-- ===== src/Sql.antt =====
-- The SQLite C interface as src/db/database_manager.cpp calls it. SQLite is not part of the
-- repository, so it is a parameter: a connection with the operations that the code uses.
pub mod Tables
pub mod Statement
pub mod Laws
pub mod Keys
pub mod Growth
pub mod Rows
pub mod Engine
use chatroom_server.Prelude.{ℕ, ℤ, Bool, Bytes, List, Option}

-- A column of a result row.
pub data Cell : Type 0 where
  text_cell : Bytes → Cell
  int_cell : ℤ → Cell

abbrev pub Row : Type 0
Row = List Cell

pub record Sqlite : Type 1 where
  -- An open connection with the contents of its database file.
  pub Db : Type 0
  -- `sqlite3_open`; `none` when the result is not `SQLITE_OK`.
  pub open_db : Bytes → Option Db
  -- `sqlite3_exec`: the connection afterwards, and whether the result is `SQLITE_OK`.
  pub exec : Db → Bytes → Db × Bool
  -- `sqlite3_prepare_v2` and the rows that `sqlite3_step` yields while it answers `SQLITE_ROW`;
  -- `none` when the preparation is not `SQLITE_OK`.
  pub prepare : Db → Bytes → Option (List Row)
  -- `sqlite3_column_text`, `sqlite3_column_int` and `sqlite3_column_int64`.
  pub column_text : Row → ℕ → Bytes
  pub column_int : Row → ℕ → ℤ
  pub column_int64 : Row → ℕ → ℤ
