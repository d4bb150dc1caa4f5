-- ===== src/Sql/Statement.antt =====
-- The SQL statements that the program intends: their text, and their meaning on the tables.
use chatroom_server.Prelude.{
  ℕ, Bool, true, false, not, Bytes, bytes, decimal, bytes_eq, List, [], ◌∷◌, ◌++◌, map, Option,
  none, some, if◌then◌else◌, pos,
}
use chatroom_server.Sql.{text_cell, int_cell, Row}
use chatroom_server.Sql.Tables.{
  Tables, UserRow, MessageRow, keep, count_of, has, named, named_with, room_named, member_is,
  message_in, set_where,
}

-- Statements that change the tables.
pub data Statement : Type 0 where
  insert_user : (u p : Bytes) → Statement
  set_online : (u : Bytes) (online : Bool) → Statement
  set_active : (u : Bytes) (now : ℕ) → Statement
  insert_room : (n c : Bytes) → Statement
  delete_room : (n : Bytes) → Statement
  insert_member : (n u : Bytes) → Statement
  delete_member : (n u : Bytes) → Statement
  insert_message : (n u m : Bytes) (t : ℕ) → Statement

-- Statements that read them.
pub data Query : Type 0 where
  count_user : (u : Bytes) → Query
  count_login : (u p : Bytes) → Query
  online_of : (u : Bytes) → Query
  online_users : Query
  all_users : Query
  count_member : (n u : Bytes) → Query
  count_room : (n : Bytes) → Query
  users_of : (n : Bytes) → Query
  rooms_of : (u : Bytes) → Query
  all_rooms : Query
  messages_of : (n : Bytes) (since : Option ℕ) → Query

abbrev pub quote : ℕ
quote = 39

-- A text literal of SQL. A quote inside it would have to be doubled.
abbrev pub quoted : Bytes → Bytes
quoted t = quote ∷ t ++ quote ∷ []

abbrev pub bit : Bool → ℕ
bit true = 1
bit false = 0

unfoldable pub text_of : Statement → Bytes
text_of (insert_user u p) =
    bytes "INSERT INTO users (username, password) VALUES ("
    ++ quoted u
    ++ bytes ", "
    ++ quoted p
    ++ bytes ");"
text_of (set_online u online) =
    bytes "UPDATE users SET is_online="
    ++ decimal (bit online)
    ++ bytes " WHERE username="
    ++ quoted u
    ++ bytes ";"
text_of (set_active u now) =
    bytes "UPDATE users SET last_active_time="
    ++ decimal now
    ++ bytes " WHERE username="
    ++ quoted u
    ++ bytes ";"
text_of (insert_room n c) =
    bytes "INSERT INTO rooms (name, creator) VALUES ("
    ++ quoted n
    ++ bytes ", "
    ++ quoted c
    ++ bytes ");"
text_of (delete_room n) = bytes "DELETE FROM rooms WHERE name=" ++ quoted n ++ bytes ";"
text_of (insert_member n u) =
    bytes "INSERT OR IGNORE INTO room_users (room_name, username) VALUES ("
    ++ quoted n
    ++ bytes ", "
    ++ quoted u
    ++ bytes ");"
text_of (delete_member n u) =
    bytes "DELETE FROM room_users WHERE room_name="
    ++ quoted n
    ++ bytes " AND username="
    ++ quoted u
    ++ bytes ";"
text_of (insert_message n u m t) =
    bytes "INSERT INTO messages (room_name, username, message, timestamp) VALUES ("
    ++ quoted n
    ++ bytes ", "
    ++ quoted u
    ++ bytes ", "
    ++ quoted m
    ++ bytes ", "
    ++ decimal t
    ++ bytes ");"

abbrev since_clause : Option ℕ → Bytes
since_clause none = []
since_clause (some t) = bytes " AND timestamp > " ++ decimal t

unfoldable pub text_of_query : Query → Bytes
text_of_query (count_user u) =
    bytes "SELECT COUNT(*) FROM users WHERE username=" ++ quoted u ++ bytes ";"
text_of_query (count_login u p) =
    bytes "SELECT COUNT(*) FROM users WHERE username="
    ++ quoted u
    ++ bytes " AND password="
    ++ quoted p
    ++ bytes ";"
text_of_query (online_of u) =
    bytes "SELECT is_online FROM users WHERE username=" ++ quoted u ++ bytes ";"
text_of_query online_users =
    bytes "SELECT username, password, is_online FROM users WHERE is_online=1;"
text_of_query all_users = bytes "SELECT username, password, is_online FROM users;"
text_of_query (count_member n u) =
    bytes "SELECT COUNT(*) FROM room_users WHERE room_name="
    ++ quoted n
    ++ bytes " AND username="
    ++ quoted u
    ++ bytes ";"
text_of_query (count_room n) =
    bytes "SELECT COUNT(*) FROM rooms WHERE name=" ++ quoted n ++ bytes ";"
text_of_query (users_of n) =
    bytes "SELECT username FROM room_users WHERE room_name=" ++ quoted n ++ bytes ";"
text_of_query (rooms_of u) =
    bytes "SELECT room_name FROM room_users WHERE username=" ++ quoted u ++ bytes ";"
text_of_query all_rooms = bytes "SELECT name FROM rooms;"
text_of_query (messages_of n since) =
    bytes "SELECT username, message, timestamp FROM messages WHERE room_name="
    ++ quoted n
    ++ since_clause since
    ++ bytes " ORDER BY timestamp ASC;"

-- The meaning of a statement: the tables afterwards, and whether it succeeds.
unfoldable pub apply : Statement → Tables → Tables × Bool
apply (insert_user u p) t = if has (named u) t.users then (t, false) else (
  record t {
    users =
        t.users
        ++ record { username = u; password = p; is_online = false; last_active_time = 0 } ∷ [];
  },
  true,
)
apply (set_online u online) t =
    (record t { users = set_where (named u) (λ r. record r { is_online = online }) t.users }, true)
apply (set_active u now) t = (
  record t { users = set_where (named u) (λ r. record r { last_active_time = now }) t.users },
  true,
)
apply (insert_room n c) t =
    if has (room_named n) t.rooms
    then (t, false)
    else (record t { rooms = t.rooms ++ record { name = n; creator = c } ∷ [] }, true)
apply (delete_room n) t = (record t { rooms = keep (λ r. not (room_named n r)) t.rooms }, true)
apply (insert_member n u) t =
    if has (member_is n u) t.members
    then (t, true)
    else (record t { members = t.members ++ record { room_name = n; username = u } ∷ [] }, true)
apply (delete_member n u) t =
    (record t { members = keep (λ r. not (member_is n u r)) t.members }, true)
apply (insert_message n u m s) t = (
  record t {
    messages =
        t.messages ++ record { room_name = n; username = u; message = m; timestamp = s } ∷ [];
  },
  true,
)

abbrev pub count_row : ℕ → Row
count_row n = int_cell (pos n) ∷ []

abbrev pub user_row : UserRow → Row
user_row r = text_cell r.username ∷ text_cell r.password ∷ int_cell (pos (bit r.is_online)) ∷ []

abbrev pub message_row : MessageRow → Row
message_row r = text_cell r.username ∷ text_cell r.message ∷ int_cell (pos r.timestamp) ∷ []

-- The rows that a query selects, in table order.
unfoldable pub ask : Query → Tables → List Row
ask (count_user u) t = count_row (count_of (named u) t.users) ∷ []
ask (count_login u p) t = count_row (count_of (named_with u p) t.users) ∷ []
ask (online_of u) t = map (λ r. count_row (bit r.is_online)) (keep (named u) t.users)
ask online_users t = map user_row (keep (λ r. r.is_online) t.users)
ask all_users t = map user_row t.users
ask (count_member n u) t = count_row (count_of (member_is n u) t.members) ∷ []
ask (count_room n) t = count_row (count_of (room_named n) t.rooms) ∷ []
ask (users_of n) t =
    map (λ r. text_cell r.username ∷ []) (keep (λ r. bytes_eq r.room_name n) t.members)
ask (rooms_of u) t =
    map (λ r. text_cell r.room_name ∷ []) (keep (λ r. bytes_eq r.username u) t.members)
ask all_rooms t = map (λ r. text_cell r.name ∷ []) t.rooms
ask (messages_of n since) t = map message_row (keep (message_in n since) t.messages)
