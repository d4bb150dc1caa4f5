-- ===== src/Service/Messages.antt =====
-- Sending messages and reading them back.
use chatroom_server.Prelude.{
  ℕ, ◌+◌, ◌/◌, ◌≡◌, refl, ap, ◌∙◌, Bool, true, ◌&&◌, Bytes, bytes, some, if◌then◌else◌, arith,
  Bool-cases, inl, inr,
}
use chatroom_server.Sql.Tables.{Tables, has, named}
use chatroom_server.Sql.Statement.{insert_message, set_active, apply}
use chatroom_server.Sql.Laws.{IsSqlite, IsPlain}
use chatroom_server.Sql.Keys.{UniqueKeys}
use chatroom_server.Platform.{Platform}
use chatroom_server.Platform.Monad.{World, returned}
use chatroom_server.Db.Connection.{now}
use chatroom_server.Db.Users.{check_and_update_inactive_users}
use chatroom_server.Db.Messages.{save_message}
use chatroom_server.Db.Writes
use chatroom_server.Db.Writes.{Holds, call, call-apply}
use chatroom_server.Db.Reads.{is_user_online_lem}
use chatroom_server.Epoll.Messages.{send_message}
use chatroom_server.Service.Fields.{HasText}

active-succeeds : (u : Bytes) (n : ℕ) (t : Tables) → (apply (set_active u n) t).1 ≡ true
unfolding apply
active-succeeds u n t = refl

module _ (P : Platform) where
  open P.sqlite use {Db}

  abbrev is_online : Bytes → Tables → Bool
  is_online u t = has (λ r. named u r && r.is_online) t.users

  -- The tables after the activity check of a user, at this reading of the clock.
  abbrev pub seen : ℕ → Bytes → Tables → Tables
  seen time u t = if is_online u t then (apply (set_active u time) t).0 else t

  module _ (L : IsSqlite P.sqlite) where
    pub check_and_update_lem :
        (w : World Db) (t : Tables) (u : Bytes)
        → Holds P L w t
        → UniqueKeys t
        → IsPlain u
        → ((check_and_update_inactive_users P u w).0 ≡ returned (is_online u t))
          × Holds P L (check_and_update_inactive_users P u w).1 (seen (P.clock w.reads) u t)
    unfolding check_and_update_inactive_users call
    check_and_update_lem w t u h k a =
        let (answer, after) = call-apply P L (Writes.set_user_last_active_time u) w t a h in
        rw (is_user_online_lem P L w t h k u a) (elim (Bool-cases (is_online u t)) [
          | inl here ↦ rw here (answer ∙ ap returned (active-succeeds u _ t), after)
          | inr gone ↦ rw gone (refl, h)
        ])

    module _ (body : Bytes) (w : World Db) (t : Tables) (n u c : Bytes) (h : Holds P L w t)
        (k : UniqueKeys t) (plain_n : IsPlain n) (plain_u : IsPlain u) (plain_c : IsPlain c)
        (doc : P.json.Json) (parsed : P.json.parse body ≡ some doc)
        (room : HasText P doc (bytes "room") n) (user : HasText P doc (bytes "username") u)
        (content : HasText P doc (bytes "content") c) where
      -- The state after the clock was read for the message's timestamp.
      abbrev ticked : World Db
      ticked = record w { reads = w.reads + 1 }

      abbrev checked : World Db
      checked = (check_and_update_inactive_users P u ticked).1

      -- The tables after the message is sent.
      abbrev pub sent : Tables
      sent =
          (apply (insert_message n u c (P.clock w.reads / 1_000_000))
            (seen (P.clock (w.reads + 1)) u t)).0

      saved :
          let time = P.clock w.reads / 1_000_000 in
          ((save_message P n u c time checked).0 ≡ returned true)
          × Holds P L (save_message P n u c time checked).1 sent
      unfolding call apply
      saved =
          call-apply P L (Writes.save_message n u c (P.clock w.reads / 1_000_000)) checked _
            (plain_n, plain_u, plain_c) (check_and_update_lem ticked t u h k plain_u).1

      -- On an open database with unique keys, and for a request whose room, user and content hold
      -- no quote and no NUL byte, sending succeeds: the user's activity is updated if the user is
      -- online, and then a message with the clock's first reading in milliseconds is added, whether
      -- or not there is such a room or such a user.
      pub send_message_lem :
          ((send_message P body w).0 ≡ returned (bytes "{\"status\":\"success\"}"))
          × Holds P L (send_message P body w).1 sent
      unfolding send_message now
      send_message_lem =
          let (answer, after) = saved in
          let (online, between) = check_and_update_lem ticked t u h k plain_u in
          rw (parsed, room.0, user.0, content.0, room.1, user.1, content.1)
            (
              ground (arith, online, answer),
              (
                after.0,
                ground (arith, online, answer, after.1),
                ground (arith, online, answer, after.2),
              ),
            )
