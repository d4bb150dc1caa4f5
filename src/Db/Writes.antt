-- ===== src/Db/Writes.antt =====
-- The methods of src/db/database_manager.cpp that change the database, against the meaning of the
-- SQL statements on its tables.
use chatroom_server.Prelude.{
  ℕ, ◌≡◌, refl, ap, ◌∙◌, Bool, Bytes, c_str, c_str_lem, some, none, Option,
}
use chatroom_server.Sql.Tables.{Tables}
use chatroom_server.Sql.Statement.{
  text_of, Statement, insert_user, set_online, set_active, insert_room, delete_room, insert_member,
  delete_member, insert_message, apply,
}
use chatroom_server.Sql.Laws.{IsSqlite, PlainStatement}
use chatroom_server.Platform.{Platform}
use chatroom_server.Platform.Monad.{World, returned, M}
use chatroom_server.Db.Connection.{execute_query, now}
use chatroom_server.Db.Texts.{code_text, code_text_lem, text_of-no_nul}
use chatroom_server.Db.Users
use chatroom_server.Db.Rooms
use chatroom_server.Db.Messages

-- A call of a method that changes the database.
pub data Call : Type 0 where
  create_user : (u p : Bytes) → Call
  set_user_online_status : (u : Bytes) (online : Bool) → Call
  set_user_last_active_time : (u : Bytes) → Call
  create_room : (n c : Bytes) → Call
  delete_room_of : (n : Bytes) → Call
  add_user_to_room : (n u : Bytes) → Call
  remove_user_from_room : (n u : Bytes) → Call
  save_message : (n u m : Bytes) (t : ℕ) → Call

-- The statement that a call stands for, when the clock shows `time`.
abbrev pub intended : ℕ → Call → Statement
intended time (create_user u p) = insert_user u p
intended time (set_user_online_status u online) = set_online u online
intended time (set_user_last_active_time u) = set_active u time
intended time (create_room n c) = insert_room n c
intended time (delete_room_of n) = delete_room n
intended time (add_user_to_room n u) = insert_member n u
intended time (remove_user_from_room n u) = delete_member n u
intended time (save_message n u m t) = insert_message n u m t

c_str-code_text : (st : Statement) → PlainStatement st → c_str (code_text st) ≡ text_of st
c_str-code_text st p = ap c_str (code_text_lem st) ∙ c_str_lem (text_of st) (text_of-no_nul st p)

module _ (P : Platform) where
  open P.sqlite use {Db}

  unfoldable pub call : Call → M Db Bool
  call (create_user u p) = Users.create_user P u p
  call (set_user_online_status u online) = Users.set_user_online_status P u online
  call (set_user_last_active_time u) = Users.set_user_last_active_time P u
  call (create_room n c) = Rooms.create_room P n c
  call (delete_room_of n) = Rooms.delete_room P n
  call (add_user_to_room n u) = Rooms.add_user_to_room P n u
  call (remove_user_from_room n u) = Rooms.remove_user_from_room P n u
  call (save_message n u m t) = Messages.save_message P n u m t

  module _ (L : IsSqlite P.sqlite) where
    -- The connection is open and its database has these tables.
    abbrev pub Holds : World Db → Tables → Type 0
    Holds w t = (d : Db) × (w.db ≡ some d) × (L.tables d ≡ t)

    pub execute_query-code_text :
        (st : Statement) (w : World Db) (t : Tables)
        → PlainStatement st
        → Holds w t
        → ((execute_query P (code_text st) w).0 ≡ returned (apply st t).1)
          × Holds (execute_query P (code_text st) w).1 (apply st t).0
    unfolding execute_query
    execute_query-code_text st w t p (d, e, s) =
        rw (e, c_str-code_text st p)
          (
            ap returned (L.exec_status d st p ∙ ap (λ x. (apply st x).1) s),
            (
              (P.sqlite.exec d (text_of st)).0,
              refl,
              L.exec_effect d st p ∙ ap (λ x. (apply st x).0) s,
            ),
          )

    pub execute_query-reads :
        (q : Bytes) (w : World Db) (o : Option Db)
        → w.db ≡ o
        → (execute_query P q w).1.reads ≡ w.reads
    unfolding execute_query
    execute_query-reads q w none e = rw e
    execute_query-reads q w (some d) e = rw e

    methods : Unit {0}
    unfolding call code_text Users.create_user Users.set_user_online_status
        Users.set_user_last_active_time Rooms.create_room Rooms.delete_room Rooms.add_user_to_room
        Rooms.remove_user_from_room Messages.save_message now
    methods = tt

    -- On an open database, and for arguments without quotes and NUL bytes, each method that
    -- changes the database returns whether the intended SQL statement succeeds, and leaves the
    -- tables as that statement does.
    pub call-apply :
        (c : Call) (w : World Db) (t : Tables)
        → PlainStatement (intended (P.clock w.reads) c)
        → Holds w t
        → let st = intended (P.clock w.reads) c in
          ((call c w).0 ≡ returned (apply st t).1) × Holds (call c w).1 (apply st t).0
    unfolding methods
    call-apply (create_user u pw) w t p h = execute_query-code_text (insert_user u pw) w t p h
    call-apply (set_user_online_status u online) w t p h =
        execute_query-code_text (set_online u online) w t p h
    call-apply (set_user_last_active_time u) w t p h =
        execute_query-code_text (set_active u (P.clock w.reads)) _ t p h
    call-apply (create_room n c) w t p h = execute_query-code_text (insert_room n c) w t p h
    call-apply (delete_room_of n) w t p h = execute_query-code_text (delete_room n) w t p h
    call-apply (add_user_to_room n u) w t p h = execute_query-code_text (insert_member n u) w t p h
    call-apply (remove_user_from_room n u) w t p h =
        execute_query-code_text (delete_member n u) w t p h
    call-apply (save_message n u m s) w t p h =
        execute_query-code_text (insert_message n u m s) w t p h
