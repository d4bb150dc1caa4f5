-- ===== src/Db/Store.antt =====
-- The methods of DatabaseManager (src/db/database_manager.hpp) as commands, and an abstract store
-- that says what each returns and does.
use mathlib.Core.List.{Perm}
use chatroom_server.Prelude.{
  ℕ, ◌+◌, ◌<◌, ◌^◌, ◌≡◌, Bool, false, ◌&&◌, Bytes, bytes_eq, List, [], ◌∷◌, map, ℤ, if◌then◌else◌,
}
use chatroom_server.Sql.Tables.{Tables, keep, has, named, message_in}
use chatroom_server.Sql.Statement.{apply}
use chatroom_server.Sql.Laws.{PlainStatement, IsPlain}
use chatroom_server.Platform.{Platform}
use chatroom_server.Platform.Monad.{Outcome, returned, thrown}
use chatroom_server.Db.Texts.{since_of}
use chatroom_server.Db.Users.{User}
use chatroom_server.Db.Writes.{Call, set_user_last_active_time, save_message, intended}
use chatroom_server.Db.Questions.{Question, PlainQuestion, truth}
use chatroom_server.Db.Listings.{user_of, message_json}

-- The methods that return a list.
pub data Listing : Type 0 where
  online_users : Listing
  all_users : Listing
  room_users : (n : Bytes) → Listing
  user_rooms : (u : Bytes) → Listing
  rooms : Listing
  room_messages : (n : Bytes) (since : ℤ) → Listing

-- The public methods: those that change the database, those that answer a question with a `bool`,
-- `checkAndUpdateInactiveUsers`, and those that return a list.
pub data Command : Type 0 where
  write : Call → Command
  question : Question → Command
  check : (u : Bytes) → Command
  listing : Listing → Command

-- No quotes and NUL bytes in the arguments, and timestamps that fit into 63 bits.
abbrev pub PlainCall : Call → Type 0
PlainCall (save_message n u m t) = PlainStatement (intended 0 (save_message n u m t)) × (t < 2 ^ 63)
PlainCall c = PlainStatement (intended 0 c)

abbrev pub PlainListing : Listing → Type 0
PlainListing online_users = Unit
PlainListing all_users = Unit
PlainListing (room_users n) = IsPlain n
PlainListing (user_rooms u) = IsPlain u
PlainListing rooms = Unit
PlainListing (room_messages n since) = IsPlain n

abbrev pub PlainCommand : Command → Type 0
PlainCommand (write c) = PlainCall c
PlainCommand (question q) = PlainQuestion q
PlainCommand (check u) = IsPlain u
PlainCommand (listing l) = PlainListing l

-- What the methods return; a message is a JSON value.
pub data Answer (Json : Type 0) : Type 0 where
  said : Bool → Answer Json
  users : List User → Answer Json
  names : List Bytes → Answer Json
  messages : List Json → Answer Json

-- Two answers are alike up to the order of a list.
abbrev pub Alike : {Json : Type 0} → Answer Json → Answer Json → Type 0
Alike (said b) (said c) = b ≡ c
Alike (users us) (users vs) = Perm us vs
Alike (names ns) (names ms) = Perm ns ms
Alike (messages js) (messages ks) = Perm js ks
Alike _ _ = ⊥

-- The method returns, with an answer like this one.
abbrev pub Returns : {Json : Type 0} → Answer Json → Outcome (Answer Json) → Type 0
Returns b (returned a) = Alike a b
Returns b thrown = ⊥

-- The store: its tables, and how often the clock was read.
pub record Store : Type 0 where
  pub tables : Tables
  pub reads : ℕ

abbrev pub reads_after : Call → ℕ → ℕ
reads_after (set_user_last_active_time u) n = n + 1
reads_after _ n = n

-- The tables after a call that changes them, and whether it succeeds.
unfoldable pub written : (ℕ → ℕ) → Call → Store → Bool × Store
written clock c m =
    let st = intended (clock m.reads) c in
    (
      (apply st m.tables).1,
      record { tables = (apply st m.tables).0; reads = reads_after c m.reads },
    )

abbrev pub is_online : Bytes → Tables → Bool
is_online u t = has (λ r. named u r && r.is_online) t.users

module _ (P : Platform) where
  open P.json use {Json}

  abbrev pub listed : Listing → Tables → Answer Json
  listed online_users t = users (map user_of (keep (λ r. r.is_online) t.users))
  listed all_users t = users (map user_of t.users)
  listed (room_users n) t =
      names (map (λ r. r.username) (keep (λ r. bytes_eq r.room_name n) t.members))
  listed (user_rooms u) t =
      names (map (λ r. r.room_name) (keep (λ r. bytes_eq r.username u) t.members))
  listed rooms t = names (map (λ r. r.name) t.rooms)
  listed (room_messages n since) t =
      messages (map (message_json P) (keep (message_in n (since_of since)) t.messages))

  abbrev pub saying : Bool × Store → Answer Json × Store
  saying (b, m) = (said b, m)

  unfoldable pub expected : Command → Store → Answer Json × Store
  expected (write c) m = saying (written P.clock c m)
  expected (question q) m = (said (truth q m.tables), m)
  expected (check u) m =
      if is_online u m.tables
      then saying (written P.clock (set_user_last_active_time u) m)
      else (said false, m)
  expected (listing l) m = (listed l m.tables, m)

  unfoldable pub expected_all : List Command → Store → List (Answer Json) × Store
  expected_all [] m = ([], m)
  expected_all (c ∷ cs) m =
      let (answer, m') = expected c m in
      let (answers, m'') = expected_all cs m' in (answer ∷ answers, m'')
