-- ===== src/Sql/Engine/Reading.antt =====
-- Reading a statement back from its text: the text is cut at its quotes.
use chatroom_server.Prelude.{
  ℕ, ◌++◌, ◌≡◌, refl, ap, ◌∙◌, true, false, Bytes, bytes, bytes_eq, List, [], ◌∷◌, Option, none,
  some, append_assoc, arith, lacks, Lacks, split_on, split_on-append, split_on-last, decimal,
  read_digits, if◌then◌else◌, ◌==◌, read_digits-decimal, decimal-Lacks, lacks-append,
}
use mathlib.Core.Path.{◌≡⟨◌⟩◌, ◌∎}
use chatroom_server.Sql.Statement.{
  text_of, Statement, insert_user, set_online, set_active, insert_room, delete_room, insert_member,
  delete_member, insert_message, quote, quoted,
}
use chatroom_server.Sql.Laws.{PlainStatement, IsPlain}

-- The text after a prefix.
unfoldable pub after : Bytes → Bytes → Option Bytes
after [] ys = some ys
after (x ∷ xs) [] = none
after (x ∷ xs) (y ∷ ys) = if x == y then after xs ys else none

-- A number between a prefix and a suffix.
abbrev number_then : Bytes → ℕ × Bytes → Option ℕ
number_then suffix (n, rest) = if bytes_eq rest suffix then some n else none

abbrev pub number_in : Bytes → Bytes → Bytes → Option ℕ
number_in prefix suffix t = elim (after prefix t) [
  | none ↦ none
  | some rest ↦ number_then suffix (read_digits 0 rest)
]

abbrev one : Bytes → Bytes → Bytes → Option Statement
one h a e =
    if bytes_eq h (bytes "DELETE FROM rooms WHERE name=")
    then some (delete_room a)
    else elim (number_in (bytes "UPDATE users SET is_online=") (bytes " WHERE username=") h) [
      | some n ↦ some (set_online a (n == 1))
      | none ↦
          elim (number_in (bytes "UPDATE users SET last_active_time=") (bytes " WHERE username=")
            h) [ some n ↦ some (set_active a n) | none ↦ none ]
    ]

abbrev two : Bytes → Bytes → Bytes → Bytes → Bytes → Option Statement
two h a m b e =
    if bytes_eq h (bytes "INSERT INTO users (username, password) VALUES (")
    then some (insert_user a b)
    else if bytes_eq h (bytes "INSERT INTO rooms (name, creator) VALUES (")
    then some (insert_room a b)
    else if bytes_eq h (bytes "INSERT OR IGNORE INTO room_users (room_name, username) VALUES (")
    then some (insert_member a b)
    else if bytes_eq h (bytes "DELETE FROM room_users WHERE room_name=")
    then some (delete_member a b)
    else none

abbrev three : Bytes → Bytes → Bytes → Bytes → Option Statement
three a b c e = elim (number_in (bytes ", ") (bytes ");") e) [
  | some n ↦ some (insert_message a b c n)
  | none ↦ none
]

abbrev from_pieces : List Bytes → Option Statement
from_pieces (h ∷ a ∷ e ∷ []) = one h a e
from_pieces (h ∷ a ∷ m ∷ b ∷ e ∷ []) = two h a m b e
from_pieces (h ∷ a ∷ m ∷ b ∷ l ∷ c ∷ e ∷ []) = three a b c e
from_pieces _ = none

unfoldable pub read_statement : Bytes → Option Statement
read_statement t = from_pieces (split_on quote t)

module _ (w : Bytes) (h : IsPlain w) where
  cut_text : (r : Bytes) → split_on quote (w ++ quote ∷ r) ≡ w ∷ split_on quote r
  cut_text r = split_on-append quote w r h.0

module _ (n : ℕ) (s : Bytes) (h : Lacks quote s) where
  decimal_then-Lacks : Lacks quote (decimal n ++ s)
  decimal_then-Lacks = simp (lacks-append, decimal-Lacks quote n refl, h)

  cut_number_last : split_on quote (decimal n ++ s) ≡ (decimal n ++ s) ∷ []
  cut_number_last = split_on-last quote (decimal n ++ s) decimal_then-Lacks

-- The bytes of " WHERE username=" and of ");".
abbrev where_user : Bytes
where_user =
    32 ∷ 87 ∷ 72 ∷ 69 ∷ 82 ∷ 69 ∷ 32 ∷ 117 ∷ 115 ∷ 101 ∷ 114 ∷ 110 ∷ 97 ∷ 109 ∷ 101 ∷ 61 ∷ []

abbrev closing : Bytes
closing = 41 ∷ 59 ∷ []

reading : Unit {0}
unfolding read_statement text_of bytes lacks split_on bytes_eq after
reading = tt

where_user-number : (n : ℕ) → read_digits 0 (decimal n ++ where_user) ≡ (n, where_user)
unfolding reading
where_user-number n = read_digits-decimal n where_user refl

closing-number : (n : ℕ) → read_digits 0 (decimal n ++ closing) ≡ (n, closing)
unfolding reading
closing-number n = read_digits-decimal n closing refl

closing-cut : (n : ℕ) → split_on quote (decimal n ++ closing) ≡ (decimal n ++ closing) ∷ []
unfolding reading
closing-cut n = cut_number_last n closing refl

-- The pieces of an update: a number stands in the first, the user's name is the second.
update_pieces :
    (h e u : Bytes) (n : ℕ)
    → Lacks quote h
    → Lacks quote e
    → IsPlain u
    → split_on quote (h ++ decimal n ++ where_user ++ quoted u ++ e)
      ≡ (h ++ decimal n ++ where_user) ∷ u ∷ e ∷ []
update_pieces h e u n hh he hu =
    split_on quote (h ++ decimal n ++ where_user ++ quoted u ++ e)
    ≡⟨ ap (split_on quote) (simp append_assoc) ⟩
      split_on quote ((h ++ decimal n ++ where_user) ++ quote ∷ (u ++ quote ∷ e))
    ≡⟨ split_on-append quote _ _
        (unfold lacks in simp (lacks-append, decimal-Lacks quote n refl, hh)) ⟩
      (h ++ decimal n ++ where_user) ∷ split_on quote (u ++ quote ∷ e)
    ≡⟨ (rw (cut_text u hu, split_on-last quote e he)) ⟩
      (h ++ decimal n ++ where_user) ∷ u ∷ e ∷ [] ∎

read_statement-online :
    (n : ℕ) (u : Bytes)
    → IsPlain u
    → read_statement
        (bytes "UPDATE users SET is_online=" ++ decimal n ++ where_user ++ quoted u ++ bytes ";")
      ≡ some (set_online u (n == 1))
unfolding reading
read_statement-online n u a =
    ap from_pieces (update_pieces (bytes "UPDATE users SET is_online=") (bytes ";") u n refl refl a)
    ∙ simp (where_user-number n)

read_statement-active :
    (n : ℕ) (u : Bytes)
    → IsPlain u
    → read_statement (
        bytes "UPDATE users SET last_active_time="
        ++ decimal n
        ++ where_user
        ++ quoted u
        ++ bytes ";")
      ≡ some (set_active u n)
unfolding reading
read_statement-active n u a =
    ap from_pieces
      (update_pieces (bytes "UPDATE users SET last_active_time=") (bytes ";") u n refl refl a)
    ∙ ground (arith, where_user-number n)

pub read_statement-text_of :
    (st : Statement) → PlainStatement st → read_statement (text_of st) ≡ some st
unfolding reading
read_statement-text_of (insert_user u p) (a, b) = simp (append_assoc, cut_text u a, cut_text p b)
read_statement-text_of (set_online u true) a = read_statement-online 1 u a
read_statement-text_of (set_online u false) a = read_statement-online 0 u a
read_statement-text_of (set_active u t) a = read_statement-active t u a
read_statement-text_of (insert_room n c) (a, b) = simp (append_assoc, cut_text n a, cut_text c b)
read_statement-text_of (delete_room n) a = simp (append_assoc, cut_text n a)
read_statement-text_of (insert_member n u) (a, b) = simp (append_assoc, cut_text n a, cut_text u b)
read_statement-text_of (delete_member n u) (a, b) = simp (append_assoc, cut_text n a, cut_text u b)
read_statement-text_of (insert_message n u m t) (a, b, c) =
    simp (append_assoc, cut_text n a, cut_text u b, cut_text m c)
      (ground (arith, closing-cut t, closing-number t))
