-- ===== src/Sql/Tables.antt =====
-- The database of the chat room as tables, and what each SQL statement that the program intends
-- does to them. The schema is that of `initializeDatabase` in src/db/database_manager.cpp:
-- `users.username` and `rooms.name` are primary keys, `room_users` has the pair as its key, and
-- foreign keys are declared but not enforced, which is SQLite's default.
use chatroom_server.Prelude.{
  ℕ, Bool, true, false, ◌&&◌, Bytes, bytes_eq, List, [], ◌∷◌, map, Option, none, some,
  if◌then◌else◌, ltb,
}

pub record UserRow : Type 0 where
  pub username : Bytes
  pub password : Bytes
  pub is_online : Bool
  pub last_active_time : ℕ

pub record RoomRow : Type 0 where
  pub name : Bytes
  pub creator : Bytes

pub record MemberRow : Type 0 where
  pub room_name : Bytes
  pub username : Bytes

pub record MessageRow : Type 0 where
  pub room_name : Bytes
  pub username : Bytes
  pub message : Bytes
  pub timestamp : ℕ

pub record Tables : Type 0 where
  pub users : List UserRow
  pub rooms : List RoomRow
  pub members : List MemberRow
  pub messages : List MessageRow

abbrev pub no_rows : Tables
no_rows = record { users = []; rooms = []; members = []; messages = [] }

module _ {ℓ} {A : Type ℓ} where
  unfoldable pub keep : (A → Bool) → List A → List A
  keep p [] = []
  keep p (x ∷ xs) = if p x then x ∷ keep p xs else keep p xs

  unfoldable pub count_of : (A → Bool) → List A → ℕ
  count_of p [] = 0
  count_of p (x ∷ xs) = let rest = count_of p xs in if p x then ℕ.suc rest else rest

  unfoldable pub has : (A → Bool) → List A → Bool
  has p [] = false
  has p (x ∷ xs) = if p x then true else has p xs

-- Row filters.
abbrev pub named : Bytes → UserRow → Bool
named u r = bytes_eq r.username u

abbrev pub named_with : Bytes → Bytes → UserRow → Bool
named_with u p r = bytes_eq r.username u && bytes_eq r.password p

abbrev pub room_named : Bytes → RoomRow → Bool
room_named n r = bytes_eq r.name n

abbrev pub member_is : Bytes → Bytes → MemberRow → Bool
member_is n u r = bytes_eq r.room_name n && bytes_eq r.username u

-- A message of the room that is later than `since`, if a bound is given.
abbrev pub message_in : Bytes → Option ℕ → MessageRow → Bool
message_in n none r = bytes_eq r.room_name n
message_in n (some t) r = bytes_eq r.room_name n && ltb t r.timestamp

abbrev pub set_where {ℓ} : {A : Type ℓ} → (A → Bool) → (A → A) → List A → List A
set_where p f = map (λ x. if p x then f x else x)
