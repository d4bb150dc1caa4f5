-- ===== src/Sql/Engine.antt =====
-- A small engine that reads the statements of Sql/Statement.antt and keeps the tables in memory.
-- It stands for SQLite where a run needs a database, and shows that what Sql/Laws.antt asks for
-- can be met.
pub mod Reading
pub mod Queries
use mathlib.Core.List.{Perm, Permᴰ}
use mathlib.Core.List.Perm
use chatroom_server.Prelude.{
  ℕ, ◌≡◌, ◌≤◌, refl, Bool, true, false, Bytes, bytes, List, [], ◌∷◌, Option, none, some, arith, leb,
  leb→le, if◌then◌else◌, get_elem?, ℤ, pos, negsuc, Bool-cases, inl, inr,
}
use chatroom_server.Sql.{Sqlite, Row, Cell, text_cell, int_cell}
use chatroom_server.Sql.Tables.{Tables, no_rows}
use chatroom_server.Sql.Statement.{
  Statement, Query, messages_of, text_of, text_of_query, apply, ask,
}
use chatroom_server.Sql.Laws.{
  IsSqlite, PlainStatement, PlainQuery, row_time, StartsAfter, Ascending, Ordered,
}
use Reading.{after, read_statement, read_statement-text_of}
use Queries.{read_query, read_query-text_of_query}

unfoldable pub insert_row : Row → List Row → List Row
insert_row r [] = r ∷ []
insert_row r (x ∷ xs) =
    let later = x ∷ insert_row r xs in if leb (row_time r) (row_time x) then r ∷ x ∷ xs else later

unfoldable pub sort_rows : List Row → List Row
sort_rows [] = []
sort_rows (r ∷ rs) = insert_row r (sort_rows rs)

insert_row-perm : (r : Row) (xs : List Row) → Perm (insert_row r xs) (r ∷ xs)
unfolding insert_row
insert_row-perm r [] = Perm.refl _
insert_row-perm r (x ∷ xs) = elim (Bool-cases (leb (row_time r) (row_time x))) [
  | inl e ↦ rw e (Perm.refl _)
  | inr e ↦ rw e (Perm.trans (Perm.cons x (insert_row-perm r xs)) (Perm.swap r x xs))
]

sort_rows-perm : (xs : List Row) → Perm (sort_rows xs) xs
unfolding sort_rows
sort_rows-perm [] = Perm.refl _
sort_rows-perm (r ∷ rs) =
    Perm.trans (insert_row-perm r (sort_rows rs)) (Perm.cons r (sort_rows-perm rs))

insert_row-StartsAfter :
    (t : ℕ) (r : Row) (xs : List Row)
    → t ≤ row_time r
    → StartsAfter t xs
    → StartsAfter t (insert_row r xs)
unfolding insert_row
insert_row-StartsAfter t r [] h s = h
insert_row-StartsAfter t r (x ∷ xs) h s = ground arith

insert_row-Ascending : (r : Row) (xs : List Row) → Ascending xs → Ascending (insert_row r xs)
unfolding insert_row
insert_row-Ascending r [] a = (tt, tt)
insert_row-Ascending r (x ∷ xs) (s, a) = elim (Bool-cases (leb (row_time r) (row_time x))) [
  | inl e ↦ rw e (leb→le (row_time r) (row_time x) e, (s, a))
  | inr e ↦
      rw e (insert_row-StartsAfter (row_time x) r xs (ground arith) s, insert_row-Ascending r xs a)
]

sort_rows-Ascending : (xs : List Row) → Ascending (sort_rows xs)
unfolding sort_rows
sort_rows-Ascending [] = tt
sort_rows-Ascending (r ∷ rs) = insert_row-Ascending r (sort_rows rs) (sort_rows-Ascending rs)

abbrev is_create : Bytes → Bool
is_create t = elim (after (bytes "CREATE TABLE ") t) [ none ↦ false | some rest ↦ true ]

abbrev run_statement : Option Statement → Tables → Bytes → Tables × Bool
run_statement none t q = (t, is_create q)
run_statement (some st) t q = apply st t

abbrev pub in_order : Query → List Row → List Row
in_order (messages_of n since) rows = sort_rows rows
in_order _ rows = rows

abbrev run_query : Option Query → Tables → Option (List Row)
run_query none t = none
run_query (some q) t = some (in_order q (ask q t))

abbrev cell_text : Option Cell → Bytes
cell_text (some (text_cell t)) = t
cell_text _ = []

abbrev cell_int : Option Cell → ℤ
cell_int (some (int_cell n)) = n
cell_int _ = pos 0

abbrev pub engine : Sqlite
engine = record {
  Db = Tables;
  open_db = λ path. some no_rows;
  exec = λ t q. run_statement (read_statement q) t q;
  prepare = λ t q. run_query (read_query q) t;
  column_text = λ r i. cell_text (get_elem? r i);
  column_int = λ r i. cell_int (get_elem? r i);
  column_int64 = λ r i. cell_int (get_elem? r i);
}

pub in_order-perm : (q : Query) (rows : List Row) → Perm (in_order q rows) rows
in_order-perm (messages_of n since) rows = sort_rows-perm rows
in_order-perm _ rows = Perm.refl rows

pub in_order-Ordered : (q : Query) (rows : List Row) → Ordered q (in_order q rows)
in_order-Ordered (messages_of n since) rows = sort_rows-Ascending rows
in_order-Ordered _ rows = tt

unfoldable pub engine_laws : IsSqlite engine
engine_laws = record {
  tables = λ t. t;
  exec_effect = λ t st p. rw (read_statement-text_of st p);
  exec_status = λ t st p. rw (read_statement-text_of st p);
  prepare_rows = λ t q p. (
    in_order q (ask q t),
    rw (read_query-text_of_query q p),
    in_order-perm q (ask q t),
    in_order-Ordered q (ask q t),
  );
  column_text_lem = λ r i t e. rw e;
  column_int_lem = λ r i n e _. rw e;
  column_int64_lem = λ r i n e _. rw e;
}
