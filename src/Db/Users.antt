-- ===== src/Db/Users.antt =====
-- The methods on users of src/db/database_manager.cpp, and the struct of src/chat/user.hpp.
use chatroom_server.Prelude.{
  ℕ, ◌++◌, Bool, false, Bytes, bytes, decimal, List, map, is_positive, if◌then◌else◌,
}
use chatroom_server.Sql.{Row}
use chatroom_server.Platform.{Platform}
use chatroom_server.Platform.Monad.{returned, M, pure, ◌>>=◌}
use chatroom_server.Db.Connection.{
  execute_query, query_rows, first_column_positive, rows_or_none, now,
}

pub record User : Type 0 where
  pub user_name : Bytes
  pub password : Bytes
  pub is_online : Bool

unfoldable pub create_user_query : Bytes → Bytes → Bytes
create_user_query user_name pw_hash =
    bytes "INSERT INTO users (username, password) VALUES ('"
    ++ user_name
    ++ bytes "', '"
    ++ pw_hash
    ++ bytes "');"

unfoldable pub validate_user_query : Bytes → Bytes → Bytes
validate_user_query user_name pw_hash =
    bytes "SELECT COUNT(*) FROM users WHERE username='"
    ++ user_name
    ++ bytes "' AND password='"
    ++ pw_hash
    ++ bytes "';"

abbrev flag : Bool → ℕ
flag online = if online then 1 else 0

unfoldable pub set_user_online_status_query : Bytes → Bool → Bytes
set_user_online_status_query user_name online_status =
    bytes "UPDATE users SET is_online="
    ++ decimal (flag online_status)
    ++ bytes " WHERE username='"
    ++ user_name
    ++ bytes "';"

unfoldable pub set_user_last_active_time_query : Bytes → ℕ → Bytes
set_user_last_active_time_query user_name time =
    bytes "UPDATE users SET last_active_time="
    ++ decimal time
    ++ bytes " WHERE username='"
    ++ user_name
    ++ bytes "';"

unfoldable pub is_user_online_query : Bytes → Bytes
is_user_online_query user_name =
    bytes "SELECT is_online FROM users WHERE username='" ++ user_name ++ bytes "';"

unfoldable pub is_user_exists_query : Bytes → Bytes
is_user_exists_query user_name =
    bytes "SELECT COUNT(*) FROM users WHERE username='" ++ user_name ++ bytes "';"

module _ (P : Platform) where
  open P.sqlite use {Db, column_text, column_int}

  unfoldable pub create_user : Bytes → Bytes → M Db Bool
  create_user user_name pw_hash = execute_query P (create_user_query user_name pw_hash)

  unfoldable pub validate_user : Bytes → Bytes → M Db Bool
  validate_user user_name pw_hash = first_column_positive P (validate_user_query user_name pw_hash)

  unfoldable pub set_user_online_status : Bytes → Bool → M Db Bool
  set_user_online_status user_name online_status =
      execute_query P (set_user_online_status_query user_name online_status)

  unfoldable pub set_user_last_active_time : Bytes → M Db Bool
  set_user_last_active_time user_name = do
    time ← now P
    execute_query P (set_user_last_active_time_query user_name time)

  unfoldable pub is_user_online : Bytes → M Db Bool
  is_user_online user_name = first_column_positive P (is_user_online_query user_name)

  unfoldable pub is_user_exists : Bytes → M Db Bool
  is_user_exists user_name = first_column_positive P (is_user_exists_query user_name)

  unfoldable pub check_and_update_inactive_users : Bytes → M Db Bool
  check_and_update_inactive_users user_name = do
    online ← is_user_online user_name
    if online then set_user_last_active_time user_name else pure false

  unfoldable pub row_user : Row → User
  row_user r = record {
    user_name = column_text r 0;
    password = column_text r 1;
    is_online = is_positive (column_int r 2);
  }

  unfoldable pub get_online_users : M Db (List User)
  get_online_users w =
      let query = bytes "SELECT username, password, is_online FROM users WHERE is_online=1;" in
      (returned (map row_user (rows_or_none P (query_rows P query w))), w)

  unfoldable pub get_all_users : M Db (List User)
  get_all_users w =
      let query = bytes "SELECT username, password, is_online FROM users;" in
      (returned (map row_user (rows_or_none P (query_rows P query w))), w)
