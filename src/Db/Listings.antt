-- ===== src/Db/Listings.antt =====
-- The methods of src/db/database_manager.cpp that return lists: users, rooms, members, messages.
use mathlib.Core.List.{Perm}
use mathlib.Core.List.Perm
use chatroom_server.Prelude.{
  ◌<◌, ◌^◌, ◌≡◌, refl, ap₂, subst, Bool, Bytes, bytes, bytes_eq, some, List, [], ◌∷◌, map, ℤ, pos,
  All, Bool-cases, inl, inr,
}
use chatroom_server.Sql.{Row, text_cell}
use chatroom_server.Sql.Tables.{Tables, UserRow, RoomRow, MemberRow, MessageRow, keep, message_in}
use chatroom_server.Sql.Statement.{
  text_of_query, Query, online_users, all_users, users_of, rooms_of, all_rooms, messages_of, ask,
  bit, user_row, message_row,
}
use chatroom_server.Sql.Laws.{IsSqlite, PlainQuery, IsPlain, Ascending, Ordered}
use chatroom_server.Platform.{Platform}
use chatroom_server.Platform.Monad.{World, returned}
use chatroom_server.Db.Connection.{query_rows}
use chatroom_server.Db.Texts.{users_of_text, rooms_of_text, messages_of_text, since_of}
use chatroom_server.Db.Users.{User, get_all_users, get_online_users, row_user}
use chatroom_server.Db.Rooms.{get_room_users, get_user_rooms, get_rooms}
use chatroom_server.Db.Messages.{get_room_messages, row_message}
use chatroom_server.Db.Writes.{Holds}
use chatroom_server.Db.Reads.{query_rows-ask, bit-positive, bit-small}

abbrev pub user_of : UserRow → User
user_of r = record { user_name = r.username; password = r.password; is_online = r.is_online }

module _ (P : Platform) where
  open P.json use {Json, string, integer, object}

  abbrev pub message_json : MessageRow → Json
  message_json m = object (
      (bytes "username", string m.username)
      ∷ (bytes "content", string m.message)
      ∷ (bytes "timestamp", integer (pos m.timestamp))
      ∷ [])

abbrev pub Timely : List MessageRow → Type 0
Timely = All (λ m. m.timestamp < 2 ^ 63)

keep-Timely : (p : MessageRow → Bool) (ms : List MessageRow) → Timely ms → Timely (keep p ms)
unfolding keep
keep-Timely p [] h = tt
keep-Timely p (m ∷ ms) (h, hs) = elim (Bool-cases (p m)) [
  | inl e ↦ rw e (h, keep-Timely p ms hs)
  | inr e ↦ rw e (keep-Timely p ms hs)
]

module _ (P : Platform) (L : IsSqlite P.sqlite) where
  open P.sqlite use {Db, column_text}

  row_user-user_row : (r : UserRow) → row_user P (user_row r) ≡ user_of r
  unfolding row_user
  row_user-user_row r = rw (
    L.column_text_lem (user_row r) 0 r.username refl,
    L.column_text_lem (user_row r) 1 r.password refl,
    L.column_int_lem (user_row r) 2 (bit r.is_online) refl (bit-small r.is_online),
    bit-positive r.is_online,
  )

  row_users : (rs : List UserRow) → map (row_user P) (map user_row rs) ≡ map user_of rs
  row_users [] = refl
  row_users (r ∷ rs) = ap₂ (λ x y. x ∷ y) (row_user-user_row r) (row_users rs)

  row_message-message_row :
      (m : MessageRow) → m.timestamp < 2 ^ 63 → row_message P (message_row m) ≡ message_json P m
  unfolding row_message
  row_message-message_row m h = cc (
    L.column_text_lem (message_row m) 0 m.username refl,
    L.column_text_lem (message_row m) 1 m.message refl,
    L.column_int64_lem (message_row m) 2 m.timestamp refl h,
  )

  row_messages :
      (ms : List MessageRow)
      → Timely ms
      → map (row_message P) (map message_row ms) ≡ map (message_json P) ms
  row_messages [] h = refl
  row_messages (m ∷ ms) (h, hs) =
      ap₂ (λ x y. x ∷ y) (row_message-message_row m h) (row_messages ms hs)

  -- The first column of rows that hold one text.
  column_texts :
      {A : Type 0} (f : A → Bytes) (xs : List A)
      → map (λ r. column_text r 0) (map (λ x. text_cell (f x) ∷ []) xs) ≡ map f xs
  column_texts f [] = refl
  column_texts f (x ∷ xs) =
      ap₂ (λ a b. a ∷ b) (L.column_text_lem (text_cell (f x) ∷ []) 0 (f x) refl) (column_texts f xs)

  -- What a method makes of the rows of a query, as a permutation of what the tables hold.
  listing :
      {A : Type 0} (f : Row → A) (q : Query) (w : World Db) (t : Tables) (ys : List A)
      → PlainQuery q
      → Holds P L w t
      → map f (ask q t) ≡ ys
      → (rows : List Row) × (query_rows P (text_of_query q) w ≡ some rows)
        × Perm (map f rows) ys
        × Ordered q rows
  listing f q w t ys p h e =
      let (rows, found, perm, order) = query_rows-ask P L q w t p h in
      (rows, found, subst (Perm (map f rows)) e (Perm.map f perm), order)

  module _ (w : World Db) (t : Tables) (h : Holds P L w t) where
    pub get_all_users_lem :
        (us : List User) × (get_all_users P w ≡ (returned us, w)) × Perm us (map user_of t.users)
    unfolding get_all_users ask text_of_query
    get_all_users_lem =
        let (rows, found, perm, order) =
          listing (row_user P) all_users w t (map user_of t.users) tt h (row_users t.users) in
        (map (row_user P) rows, rw found, perm)

    pub get_online_users_lem :
        (us : List User) × (get_online_users P w ≡ (returned us, w))
        × Perm us (map user_of (keep (λ r. r.is_online) t.users))
    unfolding get_online_users ask text_of_query
    get_online_users_lem =
        let (rows, found, perm, order) =
          listing (row_user P) online_users w t _ tt h
            (row_users (keep (λ r. r.is_online) t.users)) in
        (map (row_user P) rows, rw found, perm)

    pub get_rooms_lem :
        (ns : List Bytes) × (get_rooms P w ≡ (returned ns, w)) × Perm ns (map (λ r. r.name) t.rooms)
    unfolding get_rooms ask text_of_query
    get_rooms_lem =
        let (rows, found, perm, order) =
          listing (λ r. column_text r 0) all_rooms w t (map (λ r. r.name) t.rooms) tt h
            (column_texts (λ (r : RoomRow). r.name) t.rooms) in
        (map (λ r. column_text r 0) rows, rw found, perm)

    pub get_room_users_lem :
        (n : Bytes)
        → IsPlain n
        → (us : List Bytes) × (get_room_users P n w ≡ (returned us, w))
          × Perm us (map (λ r. r.username) (keep (λ r. bytes_eq r.room_name n) t.members))
    unfolding get_room_users ask
    get_room_users_lem n a =
        let (rows, found, perm, order) =
          listing (λ r. column_text r 0) (users_of n) w t
            (map (λ r. r.username) (keep (λ r. bytes_eq r.room_name n) t.members)) a h
            (column_texts (λ (r : MemberRow). r.username) _) in
        (map (λ r. column_text r 0) rows, rw (users_of_text n, found), perm)

    pub get_user_rooms_lem :
        (u : Bytes)
        → IsPlain u
        → (ns : List Bytes) × (get_user_rooms P u w ≡ (returned ns, w))
          × Perm ns (map (λ r. r.room_name) (keep (λ r. bytes_eq r.username u) t.members))
    unfolding get_user_rooms ask
    get_user_rooms_lem u a =
        let (rows, found, perm, order) =
          listing (λ r. column_text r 0) (rooms_of u) w t
            (map (λ r. r.room_name) (keep (λ r. bytes_eq r.username u) t.members)) a h
            (column_texts (λ (r : MemberRow). r.room_name) _) in
        (map (λ r. column_text r 0) rows, rw (rooms_of_text u, found), perm)

    -- On an open database whose timestamps fit into 63 bits, and for a room without quotes and NUL
    -- bytes: `getRoomMessages` gives, by ascending timestamp, an object for each message of the
    -- room that is later than a positive `since`, and for each message of the room if `since` is
    -- not positive; it changes nothing.
    pub get_room_messages_lem :
        (n : Bytes) (since : ℤ)
        → IsPlain n
        → Timely t.messages
        → (rows : List Row) × (get_room_messages P n since w
            ≡ (returned (map (row_message P) rows), w))
          × Perm
              (map (row_message P) rows)
              (map (message_json P) (keep (message_in n (since_of since)) t.messages))
          × Ascending rows
    unfolding get_room_messages ask
    get_room_messages_lem n since a timely =
        let (rows, found, perm, order) =
          listing (row_message P) (messages_of n (since_of since)) w t _ a h
            (row_messages _ (keep-Timely (message_in n (since_of since)) t.messages timely)) in
        (rows, rw (messages_of_text n since, found), perm, order)
