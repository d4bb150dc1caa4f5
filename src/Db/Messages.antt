-- ===== src/Db/Messages.antt =====
-- The methods on messages of src/db/database_manager.cpp.
use chatroom_server.Prelude.{
  ℕ, ◌++◌, ◌∷◌, [], ℤ, pos, is_positive, Bool, Bytes, bytes, decimal, List, map, if◌then◌else◌,
}
use chatroom_server.Sql.{Row}
use chatroom_server.Platform.{Platform}
use chatroom_server.Platform.Monad.{returned, M}
use chatroom_server.Db.Connection.{execute_query, query_rows, rows_or_none}

unfoldable pub save_message_query : Bytes → Bytes → Bytes → ℕ → Bytes
save_message_query room_name user_name message timestamp =
    bytes "INSERT INTO messages (room_name, username, message, timestamp) VALUES ('"
    ++ room_name
    ++ bytes "', '"
    ++ user_name
    ++ bytes "', '"
    ++ message
    ++ bytes "', "
    ++ decimal timestamp
    ++ bytes ");"

-- A positive `since`, as it is written into the query.
abbrev pub magnitude : ℤ → ℕ
magnitude (pos n) = n
magnitude _ = 0

unfoldable pub get_room_messages_query : Bytes → ℤ → Bytes
get_room_messages_query room_name since =
    bytes "SELECT username, message, timestamp FROM messages WHERE room_name='"
    ++ room_name
    ++ bytes "'"
    ++ (if is_positive since then bytes " AND timestamp > " ++ decimal (magnitude since) else [])
    ++ bytes " ORDER BY timestamp ASC;"

module _ (P : Platform) where
  open P.sqlite use {Db, column_text, column_int64}
  open P.json use {Json, string, integer, object}

  unfoldable pub save_message : Bytes → Bytes → Bytes → ℕ → M Db Bool
  save_message room_name user_name message timestamp =
      execute_query P (save_message_query room_name user_name message timestamp)

  unfoldable pub row_message : Row → Json
  row_message r = object (
      (bytes "username", string (column_text r 0))
      ∷ (bytes "content", string (column_text r 1))
      ∷ (bytes "timestamp", integer (column_int64 r 2))
      ∷ [])

  unfoldable pub get_room_messages : Bytes → ℤ → M Db (List Json)
  get_room_messages room_name since w = (
    returned (
        map row_message
          (rows_or_none P (query_rows P (get_room_messages_query room_name since) w))),
    w,
  )
