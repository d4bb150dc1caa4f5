-- ===== src/Tests/Database.antt =====
-- Runs of DatabaseManager, and the theorems about it at concrete inputs.
use chatroom_server.Prelude.{◌≡◌, ◌++◌, refl, [], ◌∷◌, bytes, List, c_str, pos, true, arith}
use chatroom_server.Sql.Statement.{insert_user}
use chatroom_server.Sql.Engine.{engine_laws}
use chatroom_server.Platform.Sample.{sample, running}
use chatroom_server.Db.Connection.{database_manager, initialize_database, execute_query}
use chatroom_server.Db.Questions.{validate_user, is_user_in_room}
use chatroom_server.Db.Writes.{
  create_user, set_user_last_active_time, add_user_to_room, set_user_online_status, save_message,
}
use chatroom_server.Sql.Tables.{no_rows}
use chatroom_server.Db.Store.{
  Command, write, question, check, listing, all_users, room_messages, Store, expected_all,
}
use chatroom_server.Db.Traces.{ReturnAll, perform_all, Represents, perform_all-expected_all}
use chatroom_server.Db.Injection.{code_text_inj, validate_user_query_collision}
use chatroom_server.Db.Users.{validate_user_query}
use chatroom_server.Sql.Engine.Reading.{read_statement, after}
use chatroom_server.Tests.Fixture.{
  ann, ann-IsPlain, pw-IsPlain, hall-IsPlain, empty, empty-Holds, no_rows-UniqueKeys,
}

opens : database_manager sample (bytes "chat.db") ≡ empty
unfolding database_manager initialize_database execute_query running c_str read_statement after
opens = refl

abbrev commands : List Command
commands =
    write (create_user ann (bytes "pw"))
    ∷ question (validate_user ann (bytes "pw"))
    ∷ write (set_user_last_active_time ann)
    ∷ write (add_user_to_room (bytes "hall") ann)
    ∷ question (is_user_in_room (bytes "hall") ann)
    ∷ write (set_user_online_status ann true)
    ∷ check ann
    ∷ listing all_users
    ∷ write (save_message (bytes "hall") ann (bytes "pw") 5)
    ∷ listing (room_messages (bytes "hall") (pos 0))
    ∷ []

abbrev pub nothing_stored : Store
nothing_stored = record { tables = no_rows; reads = 0 }

pub empty-Represents : Represents sample engine_laws empty nothing_stored
empty-Represents = record {
  holds = empty-Holds;
  keys = no_rows-UniqueKeys;
  timely = tt;
  reads_eq = refl;
}

perform_all-expected_all_example :
    ReturnAll sample
      (expected_all sample commands nothing_stored).0
      (perform_all sample commands empty).0
    × Represents sample engine_laws
        (perform_all sample commands empty).1
        (expected_all sample commands nothing_stored).1
perform_all-expected_all_example =
    perform_all-expected_all sample engine_laws commands empty nothing_stored empty-Represents (
      (ann-IsPlain, pw-IsPlain),
      (
        (ann-IsPlain, pw-IsPlain),
        (
          ann-IsPlain,
          (
            (hall-IsPlain, ann-IsPlain),
            (
              (hall-IsPlain, ann-IsPlain),
              (
                ann-IsPlain,
                (
                  ann-IsPlain,
                  (
                    tt,
                    (((hall-IsPlain, ann-IsPlain, pw-IsPlain), omega arith), (hall-IsPlain, tt)),
                  ),
                ),
              ),
            ),
          ),
        ),
      ),
    )

code_text_inj_example : insert_user ann (bytes "pw") ≡ insert_user ann (bytes "pw")
code_text_inj_example =
    code_text_inj (insert_user ann (bytes "pw")) (insert_user ann (bytes "pw"))
      (ann-IsPlain, pw-IsPlain) (ann-IsPlain, pw-IsPlain) refl

validate_user_query_collision_example :
    validate_user_query (ann ++ (bytes "' AND password='" ++ bytes "b")) (bytes "c")
    ≡ validate_user_query ann (bytes "b" ++ (bytes "' AND password='" ++ bytes "c"))
validate_user_query_collision_example = validate_user_query_collision ann (bytes "b") (bytes "c")
