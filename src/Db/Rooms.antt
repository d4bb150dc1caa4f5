-- ===== src/Db/Rooms.antt =====
-- The methods on rooms and their members of src/db/database_manager.cpp.
use chatroom_server.Prelude.{◌++◌, Bool, Bytes, bytes, List, map}
use chatroom_server.Platform.{Platform}
use chatroom_server.Platform.Monad.{returned, M}
use chatroom_server.Db.Connection.{execute_query, query_rows, first_column_positive, rows_or_none}

unfoldable pub create_room_query : Bytes → Bytes → Bytes
create_room_query room_name creator =
    bytes "INSERT INTO rooms (name, creator) VALUES ('"
    ++ room_name
    ++ bytes "', '"
    ++ creator
    ++ bytes "');"

unfoldable pub delete_room_query : Bytes → Bytes
delete_room_query room_name = bytes "DELETE FROM rooms WHERE name='" ++ room_name ++ bytes "';"

unfoldable pub add_user_to_room_query : Bytes → Bytes → Bytes
add_user_to_room_query room_name user_name =
    bytes "INSERT OR IGNORE INTO room_users (room_name, username) VALUES ('"
    ++ room_name
    ++ bytes "', '"
    ++ user_name
    ++ bytes "');"

unfoldable pub remove_user_from_room_query : Bytes → Bytes → Bytes
remove_user_from_room_query room_name user_name =
    bytes "DELETE FROM room_users WHERE room_name='"
    ++ room_name
    ++ bytes "' AND username='"
    ++ user_name
    ++ bytes "';"

unfoldable pub is_user_in_room_query : Bytes → Bytes → Bytes
is_user_in_room_query room_name user_name =
    bytes "SELECT COUNT(*) FROM room_users WHERE room_name='"
    ++ room_name
    ++ bytes "' AND username='"
    ++ user_name
    ++ bytes "';"

unfoldable pub is_room_exists_query : Bytes → Bytes
is_room_exists_query room_name =
    bytes "SELECT COUNT(*) FROM rooms WHERE name='" ++ room_name ++ bytes "';"

unfoldable pub get_room_users_query : Bytes → Bytes
get_room_users_query room_name =
    bytes "SELECT username FROM room_users WHERE room_name='" ++ room_name ++ bytes "';"

unfoldable pub get_user_rooms_query : Bytes → Bytes
get_user_rooms_query user_name =
    bytes "SELECT room_name FROM room_users WHERE username='" ++ user_name ++ bytes "';"

module _ (P : Platform) where
  open P.sqlite use {Db, column_text}

  unfoldable pub create_room : Bytes → Bytes → M Db Bool
  create_room room_name creator = execute_query P (create_room_query room_name creator)

  unfoldable pub delete_room : Bytes → M Db Bool
  delete_room room_name = execute_query P (delete_room_query room_name)

  unfoldable pub add_user_to_room : Bytes → Bytes → M Db Bool
  add_user_to_room room_name user_name =
      execute_query P (add_user_to_room_query room_name user_name)

  unfoldable pub remove_user_from_room : Bytes → Bytes → M Db Bool
  remove_user_from_room room_name user_name =
      execute_query P (remove_user_from_room_query room_name user_name)

  unfoldable pub is_user_in_room : Bytes → Bytes → M Db Bool
  is_user_in_room room_name user_name =
      first_column_positive P (is_user_in_room_query room_name user_name)

  unfoldable pub is_room_exists : Bytes → M Db Bool
  is_room_exists room_name = first_column_positive P (is_room_exists_query room_name)

  unfoldable pub get_room_users : Bytes → M Db (List Bytes)
  get_room_users room_name w = (
    returned (
        map (λ r. column_text r 0)
          (rows_or_none P (query_rows P (get_room_users_query room_name) w))),
    w,
  )

  unfoldable pub get_user_rooms : Bytes → M Db (List Bytes)
  get_user_rooms user_name w = (
    returned (
        map (λ r. column_text r 0)
          (rows_or_none P (query_rows P (get_user_rooms_query user_name) w))),
    w,
  )

  unfoldable pub get_rooms : M Db (List Bytes)
  get_rooms w = (
    returned (
        map (λ r. column_text r 0)
          (rows_or_none P (query_rows P (bytes "SELECT name FROM rooms;") w))),
    w,
  )
