-- ===== src/Tests/Fixture.antt =====
-- A database with a few rows, and requests to it.
use chatroom_server.Prelude.{refl, true, Bytes, bytes, lacks, [], ◌∷◌, some, arith, split_on}
use chatroom_server.Sql.Tables.{Tables, UserRow, no_rows, count_of}
use chatroom_server.Sql.Keys.{UniqueKeys}
use chatroom_server.Sql.Laws.{IsPlain}
use chatroom_server.Sql.Engine.{engine_laws}
use chatroom_server.Platform.Monad.{World}
use chatroom_server.Platform.Sample.{sample, running, Document, read_members}
use chatroom_server.Db.Writes.{Holds}
use chatroom_server.Service.Fields.{HasTexts}

abbrev pub ann : Bytes
ann = bytes "ann"

abbrev pub ann_row : UserRow
ann_row = record { username = ann; password = bytes "pw"; is_online = true; last_active_time = 7 }

abbrev pub filled : Tables
filled = record {
  users = ann_row ∷ [];
  rooms = record { name = bytes "hall"; creator = ann } ∷ [];
  members = record { room_name = bytes "hall"; username = ann } ∷ [];
  messages =
      record { room_name = bytes "hall"; username = ann; message = bytes "hi"; timestamp = 5 } ∷ [];
}

abbrev pub world : World Tables
world = record { db = some filled; reads = 0 }

pub world-Holds : Holds sample engine_laws world filled
unfolding engine_laws
world-Holds = (filled, refl, refl)

pub filled-UniqueKeys : UniqueKeys filled
unfolding count_of
filled-UniqueKeys = record {
  user_key = λ u. ground arith;
  room_key = λ n. ground arith;
  member_key = λ n u. ground arith;
}

abbrev pub empty : World Tables
empty = record { db = some no_rows; reads = 0 }

pub empty-Holds : Holds sample engine_laws empty no_rows
unfolding engine_laws
empty-Holds = (no_rows, refl, refl)

pub no_rows-UniqueKeys : UniqueKeys no_rows
unfolding count_of
no_rows-UniqueKeys = record {
  user_key = λ u. omega arith;
  room_key = λ n. omega arith;
  member_key = λ n u. omega arith;
}

pub ann-IsPlain : IsPlain ann
unfolding running lacks
ann-IsPlain = (refl, refl)

pub pw-IsPlain : IsPlain (bytes "pw")
unfolding running lacks
pw-IsPlain = (refl, refl)

pub hall-IsPlain : IsPlain (bytes "hall")
unfolding running lacks
hall-IsPlain = (refl, refl)

abbrev pub document : Bytes → Document
document text = record { members = read_members (split_on 34 text); written = text }

abbrev pub account_body : Bytes
account_body = bytes "{\"username\":\"ann\",\"password\":\"pw\"}"

pub account_fields :
    HasTexts sample account_body (bytes "username") ann (bytes "password") (bytes "pw")
unfolding running
account_fields = (document account_body, refl, (refl, refl), (refl, refl))

abbrev pub room_body : Bytes
room_body = bytes "{\"name\":\"hall\",\"creator\":\"ann\"}"

pub room_fields : HasTexts sample room_body (bytes "name") (bytes "hall") (bytes "creator") ann
unfolding running
room_fields = (document room_body, refl, (refl, refl), (refl, refl))

abbrev pub join_body : Bytes
join_body = bytes "{\"room\":\"hall\",\"username\":\"ann\"}"

pub join_fields : HasTexts sample join_body (bytes "room") (bytes "hall") (bytes "username") ann
unfolding running
join_fields = (document join_body, refl, (refl, refl), (refl, refl))

abbrev pub message_body : Bytes
message_body = bytes "{\"room\":\"hall\",\"username\":\"ann\",\"content\":\"yo\"}"
