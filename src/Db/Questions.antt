-- ===== src/Db/Questions.antt =====
-- The methods of src/db/database_manager.cpp that answer a question about the tables with a `bool`.
use chatroom_server.Prelude.{◌≡◌, Bool, ◌&&◌, Bytes}
use chatroom_server.Sql.Tables.{Tables, has, named, named_with, room_named, member_is}
use chatroom_server.Sql.Laws.{IsSqlite, IsPlain}
use chatroom_server.Sql.Keys.{UniqueKeys}
use chatroom_server.Platform.{Platform}
use chatroom_server.Platform.Monad.{World, returned, M}
use chatroom_server.Db.Users as users
use chatroom_server.Db.Rooms as rooms
use chatroom_server.Db.Writes.{Holds}
use chatroom_server.Db.Reads.{
  validate_user_lem, is_user_exists_lem, is_user_online_lem, is_user_in_room_lem,
  is_room_exists_lem,
}

pub data Question : Type 0 where
  validate_user : (u p : Bytes) → Question
  is_user_exists : (u : Bytes) → Question
  is_user_online : (u : Bytes) → Question
  is_user_in_room : (n u : Bytes) → Question
  is_room_exists : (n : Bytes) → Question

-- No quotes and NUL bytes in the arguments.
abbrev pub PlainQuestion : Question → Type 0
PlainQuestion (validate_user u p) = IsPlain u × IsPlain p
PlainQuestion (is_user_exists u) = IsPlain u
PlainQuestion (is_user_online u) = IsPlain u
PlainQuestion (is_user_in_room n u) = IsPlain n × IsPlain u
PlainQuestion (is_room_exists n) = IsPlain n

-- What the tables say.
abbrev pub truth : Question → Tables → Bool
truth (validate_user u p) t = has (named_with u p) t.users
truth (is_user_exists u) t = has (named u) t.users
truth (is_user_online u) t = has (λ r. named u r && r.is_online) t.users
truth (is_user_in_room n u) t = has (member_is n u) t.members
truth (is_room_exists n) t = has (room_named n) t.rooms

module _ (P : Platform) where
  open P.sqlite use {Db}

  unfoldable pub method : Question → M Db Bool
  method (validate_user u p) = users.validate_user P u p
  method (is_user_exists u) = users.is_user_exists P u
  method (is_user_online u) = users.is_user_online P u
  method (is_user_in_room n u) = rooms.is_user_in_room P n u
  method (is_room_exists n) = rooms.is_room_exists P n

  module _ (L : IsSqlite P.sqlite) where
    -- On an open database with unique keys, and for arguments without quotes and NUL bytes, each of
    -- the five methods that answer a question returns what the tables say: whether a row has this
    -- name and password, this name, is online, is a member of the room, or is this room; it changes
    -- nothing.
    pub method-truth :
        (q : Question) (w : World Db) (t : Tables)
        → Holds P L w t
        → UniqueKeys t
        → PlainQuestion q
        → method q w ≡ (returned (truth q t), w)
    unfolding method
    method-truth (validate_user u p) w t h k (a, b) = validate_user_lem P L w t h k u p a b
    method-truth (is_user_exists u) w t h k a = is_user_exists_lem P L w t h k u a
    method-truth (is_user_online u) w t h k a = is_user_online_lem P L w t h k u a
    method-truth (is_user_in_room n u) w t h k (a, b) = is_user_in_room_lem P L w t h k n u a b
    method-truth (is_room_exists n) w t h k a = is_room_exists_lem P L w t h k n a
