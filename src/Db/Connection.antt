-- ===== src/Db/Connection.antt =====
-- The connection of src/db/database_manager.cpp: its constructor, `initializeDatabase`,
-- `executeQuery`, and the ways in which the other methods run a query.
use chatroom_server.Prelude.{
  ℕ, ◌+◌, Bool, true, false, Bytes, bytes, c_str, List, [], ◌∷◌, Option, none, some, is_positive,
  if◌then◌else◌,
}
use chatroom_server.Sql.{Row}
use chatroom_server.Platform.{Platform}
use chatroom_server.Platform.Monad.{World, Outcome, returned, M, pure, ◌>>=◌}

module _ (P : Platform) where
  open P.sqlite use {Db, exec}

  -- SQLite answers `SQLITE_MISUSE` to a null connection, and the state stays.
  abbrev exec_on : Option Db → Bytes → M Db Bool
  exec_on none q w = (returned false, w)
  exec_on (some d) q w = (returned (exec d q).1, record w { db = some (exec d q).0 })

  -- `executeQuery`; the message on `std::cerr` is left out.
  unfoldable pub execute_query : Bytes → M Db Bool
  execute_query q w = exec_on w.db (c_str q) w

  abbrev prepare_on : Option Db → Bytes → Option (List Row)
  prepare_on none q = none
  prepare_on (some d) q = P.sqlite.prepare d q

  -- The rows of a query, or `none` when it cannot be prepared.
  unfoldable pub query_rows : Bytes → World Db → Option (List Row)
  query_rows q w = prepare_on w.db (c_str q)

  abbrev first_positive : Option (List Row) → Bool
  first_positive none = false
  first_positive (some []) = false
  first_positive (some (r ∷ rs)) = is_positive (P.sqlite.column_int r 0)

  -- `rc == SQLITE_OK && sqlite3_step(stmt) == SQLITE_ROW`, then `sqlite3_column_int(stmt, 0) > 0`.
  unfoldable pub first_column_positive : Bytes → M Db Bool
  first_column_positive q w = (returned (first_positive (query_rows q w)), w)

  abbrev pub rows_or_none : Option (List Row) → List Row
  rows_or_none none = []
  rows_or_none (some rs) = rs

  -- `system_clock::now().time_since_epoch().count()`
  unfoldable pub now : M Db ℕ
  now w = (returned (P.clock w.reads), record w { reads = w.reads + 1 })

  abbrev user_table : Bytes
  user_table =
      bytes
        "CREATE TABLE IF NOT EXISTS users (username TEXT PRIMARY KEY,password TEXT NOT NULL,is_online INTEGER DEFAULT 0,last_active_time INTEGER DEFAULT 0);"

  abbrev room_table : Bytes
  room_table =
      bytes
        "CREATE TABLE IF NOT EXISTS rooms (name TEXT PRIMARY KEY,creator TEXT NOT NULL,FOREIGN KEY(creator) REFERENCES users(username));"

  abbrev room_user_table : Bytes
  room_user_table =
      bytes
        "CREATE TABLE IF NOT EXISTS room_users (room_name TEXT,username TEXT,PRIMARY KEY(room_name, username),FOREIGN KEY(room_name) REFERENCES rooms(name),FOREIGN KEY(username) REFERENCES users(username));"

  abbrev message_table : Bytes
  message_table =
      bytes
        "CREATE TABLE IF NOT EXISTS messages (id INTEGER PRIMARY KEY AUTOINCREMENT,room_name TEXT,username TEXT,message TEXT,timestamp INTEGER,FOREIGN KEY(room_name) REFERENCES rooms(name),FOREIGN KEY(username) REFERENCES users(username));"

  -- `a && b` of two calls: the second is made only if the first returns true.
  abbrev and_then : M Db Bool → M Db Bool → M Db Bool
  and_then m k = do done ← m; if done then k else pure false

  unfoldable pub initialize_database : M Db Bool
  initialize_database = and_then (execute_query user_table) (
      and_then (execute_query room_table)
        (and_then (execute_query room_user_table) (execute_query message_table)))

  abbrev keep_if : Outcome Bool × World Db → World Db
  keep_if (returned true, w) = w
  keep_if (_, w) = record w { db = none }

  abbrev opened : Option Db → World Db
  opened none = record { db = none; reads = 0 }
  opened (some d) = keep_if (initialize_database (record { db = some d; reads = 0 }))

  -- The constructor: the member `db_` is null when the file or the tables cannot be opened.
  unfoldable pub database_manager : Bytes → World Db
  database_manager path = opened (P.sqlite.open_db path)
