-- ===== src/Tests/Conversation.antt =====
-- A message sent to a room and read back.
use chatroom_server.Prelude.{refl, Bytes, bytes, lacks, pos}
use chatroom_server.Sql.Laws.{IsPlain}
use chatroom_server.Platform.Sample.{sample, running}
use chatroom_server.Service.Conversation.{Sending, Reading}
use chatroom_server.Tests.Fixture.{ann, message_body, document}

pub yo-IsPlain : IsPlain (bytes "yo")
unfolding running lacks
yo-IsPlain = (refl, refl)

abbrev pub reading_body : Bytes
reading_body = bytes "{\"room\":\"hall\",\"username\":\"ann\",\"since\":\"4\"}"

pub sending : Sending sample message_body (bytes "hall") ann (bytes "yo")
unfolding running
sending = record {
  doc = document message_body;
  parsed = refl;
  room = (refl, refl);
  user = (refl, refl);
  content = (refl, refl);
}

pub reading : Reading sample reading_body (bytes "hall") ann (pos 4)
unfolding running
reading = record {
  doc = document reading_body;
  parsed = refl;
  room = (refl, refl);
  user = (refl, refl);
  there = refl;
  given = refl;
  number = refl;
}
