-- ===== src/Db/Texts.antt =====
-- The SQL text that each method of src/db/database_manager.cpp puts together.
use chatroom_server.Prelude.{
  ℕ, ◌≡◌, refl, ℤ, pos, negsuc, zero, suc, true, false, Bytes, bytes, Option, none, some,
  append_assoc, lacks, Lacks, lacks-append, decimal, decimal-Lacks,
}
use chatroom_server.Sql.Statement.{
  text_of, text_of_query, Statement, insert_user, set_online, set_active, insert_room, delete_room,
  insert_member, delete_member, insert_message, Query, count_user, count_login, online_of,
  online_users, all_users, count_member, count_room, users_of, rooms_of, all_rooms, messages_of,
}
use chatroom_server.Sql.Laws.{PlainStatement, PlainQuery}
use chatroom_server.Db.Users.{
  create_user_query, set_user_online_status_query, set_user_last_active_time_query,
  validate_user_query, is_user_online_query, is_user_exists_query,
}
use chatroom_server.Db.Rooms.{
  create_room_query, delete_room_query, add_user_to_room_query, remove_user_from_room_query,
  is_user_in_room_query, is_room_exists_query, get_room_users_query, get_user_rooms_query,
}
use chatroom_server.Db.Messages.{save_message_query, get_room_messages_query}

-- The text that the code sends for a statement.
unfoldable pub code_text : Statement → Bytes
code_text (insert_user u p) = create_user_query u p
code_text (set_online u online) = set_user_online_status_query u online
code_text (set_active u now) = set_user_last_active_time_query u now
code_text (insert_room n c) = create_room_query n c
code_text (delete_room n) = delete_room_query n
code_text (insert_member n u) = add_user_to_room_query n u
code_text (delete_member n u) = remove_user_from_room_query n u
code_text (insert_message n u m t) = save_message_query n u m t

queries : Unit {0}
unfolding create_user_query set_user_online_status_query set_user_last_active_time_query
    validate_user_query is_user_online_query is_user_exists_query create_room_query
    delete_room_query add_user_to_room_query remove_user_from_room_query is_user_in_room_query
    is_room_exists_query get_room_users_query get_user_rooms_query save_message_query
    get_room_messages_query code_text text_of text_of_query bytes lacks
queries = tt

pub code_text_lem : (st : Statement) → code_text st ≡ text_of st
unfolding queries
code_text_lem (insert_user u p) = simp append_assoc
code_text_lem (set_online u true) = simp append_assoc
code_text_lem (set_online u false) = simp append_assoc
code_text_lem (set_active u now) = simp append_assoc
code_text_lem (insert_room n c) = simp append_assoc
code_text_lem (delete_room n) = simp append_assoc
code_text_lem (insert_member n u) = simp append_assoc
code_text_lem (delete_member n u) = simp append_assoc
code_text_lem (insert_message n u m t) = simp append_assoc

decimal-no_nul : (n : ℕ) → lacks 0 (decimal n) ≡ true
decimal-no_nul n = decimal-Lacks 0 n refl

pub text_of-no_nul : (st : Statement) → PlainStatement st → Lacks 0 (text_of st)
unfolding queries
text_of-no_nul (insert_user u p) ((_, a), (_, b)) = simp (lacks-append, a, b)
text_of-no_nul (set_online u online) (_, a) = simp (lacks-append, a, decimal-no_nul)
text_of-no_nul (set_active u now) (_, a) = simp (lacks-append, a, decimal-no_nul)
text_of-no_nul (insert_room n c) ((_, a), (_, b)) = simp (lacks-append, a, b)
text_of-no_nul (delete_room n) (_, a) = simp (lacks-append, a)
text_of-no_nul (insert_member n u) ((_, a), (_, b)) = simp (lacks-append, a, b)
text_of-no_nul (delete_member n u) ((_, a), (_, b)) = simp (lacks-append, a, b)
text_of-no_nul (insert_message n u m t) ((_, a), (_, b), (_, c)) =
    simp (lacks-append, a, b, c, decimal-no_nul)

-- The bound of `getRoomMessages`, which a `since` that is not positive leaves out.
abbrev pub since_of : ℤ → Option ℕ
since_of (pos zero) = none
since_of (pos (suc n)) = some (suc n)
since_of (negsuc n) = none

pub count_user_text : (u : Bytes) → is_user_exists_query u ≡ text_of_query (count_user u)
unfolding queries
count_user_text u = simp append_assoc

pub count_login_text : (u p : Bytes) → validate_user_query u p ≡ text_of_query (count_login u p)
unfolding queries
count_login_text u p = simp append_assoc

pub online_of_text : (u : Bytes) → is_user_online_query u ≡ text_of_query (online_of u)
unfolding queries
online_of_text u = simp append_assoc

pub count_member_text : (n u : Bytes) → is_user_in_room_query n u ≡ text_of_query (count_member n u)
unfolding queries
count_member_text n u = simp append_assoc

pub count_room_text : (n : Bytes) → is_room_exists_query n ≡ text_of_query (count_room n)
unfolding queries
count_room_text n = simp append_assoc

pub users_of_text : (n : Bytes) → get_room_users_query n ≡ text_of_query (users_of n)
unfolding queries
users_of_text n = simp append_assoc

pub rooms_of_text : (u : Bytes) → get_user_rooms_query u ≡ text_of_query (rooms_of u)
unfolding queries
rooms_of_text u = simp append_assoc

pub messages_of_text :
    (n : Bytes) (since : ℤ)
    → get_room_messages_query n since ≡ text_of_query (messages_of n (since_of since))
unfolding queries
messages_of_text n (pos zero) = simp append_assoc
messages_of_text n (pos (suc t)) = simp append_assoc
messages_of_text n (negsuc t) = simp append_assoc

pub text_of_query-no_nul : (q : Query) → PlainQuery q → Lacks 0 (text_of_query q)
unfolding queries
text_of_query-no_nul (count_user u) (_, a) = simp (lacks-append, a)
text_of_query-no_nul (count_login u p) ((_, a), (_, b)) = simp (lacks-append, a, b)
text_of_query-no_nul (online_of u) (_, a) = simp (lacks-append, a)
text_of_query-no_nul online_users _ = refl
text_of_query-no_nul all_users _ = refl
text_of_query-no_nul (count_member n u) ((_, a), (_, b)) = simp (lacks-append, a, b)
text_of_query-no_nul (count_room n) (_, a) = simp (lacks-append, a)
text_of_query-no_nul (users_of n) (_, a) = simp (lacks-append, a)
text_of_query-no_nul (rooms_of u) (_, a) = simp (lacks-append, a)
text_of_query-no_nul all_rooms _ = refl
text_of_query-no_nul (messages_of n none) (_, a) = simp (lacks-append, a)
text_of_query-no_nul (messages_of n (some t)) (_, a) = simp (lacks-append, a, decimal-no_nul)
