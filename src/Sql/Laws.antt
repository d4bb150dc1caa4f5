-- ===== src/Sql/Laws.antt =====
-- What the program relies on in SQLite: that the statements it intends do what SQL says they do,
-- when their text literals need no escaping.
use mathlib.Core.List.{Perm}
use chatroom_server.Prelude.{
  ℕ, ◌≡◌, ◌≤◌, ◌<◌, ◌^◌, Bytes, List, [], ◌∷◌, some, Lacks, pos, get_elem?,
}
use chatroom_server.Sql.{Sqlite, Row, text_cell, int_cell}
use chatroom_server.Sql.Tables.{Tables}
use chatroom_server.Sql.Statement.{
  Statement, insert_user, set_online, set_active, insert_room, delete_room, insert_member,
  delete_member, insert_message, Query, count_user, count_login, online_of, online_users, all_users,
  count_member, count_room, users_of, rooms_of, all_rooms, messages_of, quote, text_of,
  text_of_query, apply, ask,
}

-- A text without quotes and NUL bytes.
abbrev pub IsPlain : Bytes → Type 0
IsPlain t = Lacks quote t × Lacks 0 t

abbrev pub PlainStatement : Statement → Type 0
PlainStatement (insert_user u p) = IsPlain u × IsPlain p
PlainStatement (set_online u online) = IsPlain u
PlainStatement (set_active u now) = IsPlain u
PlainStatement (insert_room n c) = IsPlain n × IsPlain c
PlainStatement (delete_room n) = IsPlain n
PlainStatement (insert_member n u) = IsPlain n × IsPlain u
PlainStatement (delete_member n u) = IsPlain n × IsPlain u
PlainStatement (insert_message n u m t) = IsPlain n × IsPlain u × IsPlain m

abbrev pub PlainQuery : Query → Type 0
PlainQuery (count_user u) = IsPlain u
PlainQuery (count_login u p) = IsPlain u × IsPlain p
PlainQuery (online_of u) = IsPlain u
PlainQuery online_users = Unit
PlainQuery all_users = Unit
PlainQuery (count_member n u) = IsPlain n × IsPlain u
PlainQuery (count_room n) = IsPlain n
PlainQuery (users_of n) = IsPlain n
PlainQuery (rooms_of u) = IsPlain u
PlainQuery all_rooms = Unit
PlainQuery (messages_of n since) = IsPlain n

-- The timestamp column of a message row.
abbrev pub row_time : Row → ℕ
row_time (_ ∷ _ ∷ int_cell (pos t) ∷ []) = t
row_time _ = 0

abbrev pub StartsAfter : ℕ → List Row → Type 0
StartsAfter t [] = Unit
StartsAfter t (r ∷ rs) = t ≤ row_time r

-- Rows by ascending timestamp.
abbrev pub Ascending : List Row → Type 0
Ascending [] = Unit
Ascending (r ∷ rs) = StartsAfter (row_time r) rs × Ascending rs

abbrev pub Ordered : Query → List Row → Type 0
Ordered (messages_of n since) rows = Ascending rows
Ordered _ rows = Unit

pub record IsSqlite (S : Sqlite) : Type 0 where
  -- The rows of the program's four tables in a connection's database.
  pub tables : S.Db → Tables
  pub exec_effect :
      (d : S.Db) (st : Statement)
      → PlainStatement st
      → tables (S.exec d (text_of st)).0 ≡ (apply st (tables d)).0
  pub exec_status :
      (d : S.Db) (st : Statement)
      → PlainStatement st
      → (S.exec d (text_of st)).1 ≡ (apply st (tables d)).1
  -- SQL leaves the order of rows open where no `ORDER BY` is given.
  pub prepare_rows :
      (d : S.Db) (q : Query)
      → PlainQuery q
      → (rows : List Row) × (S.prepare d (text_of_query q) ≡ some rows)
        × Perm rows (ask q (tables d))
        × Ordered q rows
  pub column_text_lem :
      (r : Row) (i : ℕ) (t : Bytes) → get_elem? r i ≡ some (text_cell t) → S.column_text r i ≡ t
  -- `sqlite3_column_int` has 32 bits.
  pub column_int_lem :
      (r : Row) (i n : ℕ)
      → get_elem? r i ≡ some (int_cell (pos n))
      → n < 2 ^ 31
      → S.column_int r i ≡ pos n
  pub column_int64_lem :
      (r : Row) (i n : ℕ)
      → get_elem? r i ≡ some (int_cell (pos n))
      → n < 2 ^ 63
      → S.column_int64 r i ≡ pos n
