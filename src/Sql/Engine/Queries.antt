-- ===== src/Sql/Engine/Queries.antt =====
-- Reading a query back from its text.
use chatroom_server.Prelude.{
  ℕ, ◌++◌, ◌≡◌, refl, ap, ◌∙◌, Bytes, bytes, bytes_eq, List, [], ◌∷◌, Option, none, some,
  append_assoc, arith, lacks, Lacks, split_on, split_on-append, split_on-last, decimal, read_digits,
  if◌then◌else◌, read_digits-decimal, decimal-Lacks, lacks-append,
}
use mathlib.Core.Path.{◌≡⟨◌⟩◌, ◌∎}
use chatroom_server.Sql.Statement.{
  text_of_query, Query, count_user, count_login, online_of, online_users, all_users, count_member,
  count_room, users_of, rooms_of, all_rooms, messages_of, quote, quoted,
}
use chatroom_server.Sql.Laws.{PlainQuery, IsPlain}
use chatroom_server.Sql.Engine.Reading.{after, number_in}

-- The bytes of " ORDER BY timestamp ASC;".
abbrev by_time : Bytes
by_time =
    32 ∷ 79 ∷ 82 ∷ 68 ∷ 69 ∷ 82 ∷ 32 ∷ 66 ∷ 89 ∷ 32 ∷ 116 ∷ 105 ∷ 109 ∷ 101 ∷ 115 ∷ 116 ∷ 97 ∷ 109
    ∷ 112 ∷ 32 ∷ 65 ∷ 83 ∷ 67 ∷ 59 ∷ []

abbrev none_of : Bytes → Option Query
none_of h =
    if bytes_eq h (bytes "SELECT username, password, is_online FROM users WHERE is_online=1;")
    then some online_users
    else if bytes_eq h (bytes "SELECT username, password, is_online FROM users;")
    then some all_users
    else if bytes_eq h (bytes "SELECT name FROM rooms;")
    then some all_rooms
    else none

abbrev bound : Bytes → Bytes → Option Query
bound a e = elim (number_in (bytes " AND timestamp > ") by_time e) [
  | some n ↦ some (messages_of a (some n))
  | none ↦ if bytes_eq e by_time then some (messages_of a none) else none
]

abbrev one_of : Bytes → Bytes → Bytes → Option Query
one_of h a e =
    if bytes_eq h (bytes "SELECT COUNT(*) FROM users WHERE username=")
    then some (count_user a)
    else if bytes_eq h (bytes "SELECT is_online FROM users WHERE username=")
    then some (online_of a)
    else if bytes_eq h (bytes "SELECT COUNT(*) FROM rooms WHERE name=")
    then some (count_room a)
    else if bytes_eq h (bytes "SELECT username FROM room_users WHERE room_name=")
    then some (users_of a)
    else if bytes_eq h (bytes "SELECT room_name FROM room_users WHERE username=")
    then some (rooms_of a)
    else if bytes_eq h (bytes "SELECT username, message, timestamp FROM messages WHERE room_name=")
    then bound a e
    else none

abbrev two_of : Bytes → Bytes → Bytes → Option Query
two_of h a b =
    if bytes_eq h (bytes "SELECT COUNT(*) FROM users WHERE username=")
    then some (count_login a b)
    else if bytes_eq h (bytes "SELECT COUNT(*) FROM room_users WHERE room_name=")
    then some (count_member a b)
    else none

abbrev query_pieces : List Bytes → Option Query
query_pieces (h ∷ []) = none_of h
query_pieces (h ∷ a ∷ e ∷ []) = one_of h a e
query_pieces (h ∷ a ∷ m ∷ b ∷ e ∷ []) = two_of h a b
query_pieces _ = none

unfoldable pub read_query : Bytes → Option Query
read_query t = query_pieces (split_on quote t)

module _ (w : Bytes) (h : IsPlain w) where
  cut_text : (r : Bytes) → split_on quote (w ++ quote ∷ r) ≡ w ∷ split_on quote r
  cut_text r = split_on-append quote w r h.0

reading : Unit {0}
unfolding read_query text_of_query bytes lacks split_on bytes_eq after
reading = tt

by_time-number : (n : ℕ) → read_digits 0 (decimal n ++ by_time) ≡ (n, by_time)
unfolding reading
by_time-number n = read_digits-decimal n by_time refl

message_pieces :
    (h a e : Bytes)
    → Lacks quote h
    → Lacks quote e
    → IsPlain a
    → split_on quote (h ++ quoted a ++ e) ≡ h ∷ a ∷ e ∷ []
message_pieces h a e hh he ha =
    split_on quote (h ++ quoted a ++ e)
    ≡⟨ ap (split_on quote) (simp append_assoc) ⟩ split_on quote (h ++ quote ∷ (a ++ quote ∷ e))
    ≡⟨ split_on-append quote h _ hh ⟩ h ∷ split_on quote (a ++ quote ∷ e)
    ≡⟨ (rw (cut_text a ha, split_on-last quote e he)) ⟩ h ∷ a ∷ e ∷ [] ∎

since-no_quote : (n : ℕ) → Lacks quote ((bytes " AND timestamp > " ++ decimal n) ++ by_time)
unfolding reading
since-no_quote n = simp (lacks-append, decimal-Lacks quote n refl)

since_text :
    (n : Bytes) (t : ℕ)
    → text_of_query (messages_of n (some t))
      ≡ bytes "SELECT username, message, timestamp FROM messages WHERE room_name="
        ++ quoted n
        ++ ((bytes " AND timestamp > " ++ decimal t) ++ by_time)
unfolding reading
since_text n t = simp append_assoc

read_query-since :
    (n : Bytes) (t : ℕ)
    → IsPlain n
    → read_query (
        bytes "SELECT username, message, timestamp FROM messages WHERE room_name="
        ++ quoted n
        ++ ((bytes " AND timestamp > " ++ decimal t) ++ by_time))
      ≡ some (messages_of n (some t))
unfolding reading
read_query-since n t a =
    ap query_pieces (
      message_pieces (bytes "SELECT username, message, timestamp FROM messages WHERE room_name=") n
        ((bytes " AND timestamp > " ++ decimal t) ++ by_time) refl (since-no_quote t) a)
    ∙ ground (arith, by_time-number t)

pub read_query-text_of_query : (q : Query) → PlainQuery q → read_query (text_of_query q) ≡ some q
unfolding reading
read_query-text_of_query (count_user u) a = simp (append_assoc, cut_text u a)
read_query-text_of_query (count_login u p) (a, b) = simp (append_assoc, cut_text u a, cut_text p b)
read_query-text_of_query (online_of u) a = simp (append_assoc, cut_text u a)
read_query-text_of_query online_users _ = refl
read_query-text_of_query all_users _ = refl
read_query-text_of_query (count_member n u) (a, b) = simp (append_assoc, cut_text n a, cut_text u b)
read_query-text_of_query (count_room n) a = simp (append_assoc, cut_text n a)
read_query-text_of_query (users_of n) a = simp (append_assoc, cut_text n a)
read_query-text_of_query (rooms_of u) a = simp (append_assoc, cut_text u a)
read_query-text_of_query all_rooms _ = refl
read_query-text_of_query (messages_of n none) a = simp (append_assoc, cut_text n a)
read_query-text_of_query (messages_of n (some t)) a =
    ap read_query (since_text n t) ∙ read_query-since n t a
