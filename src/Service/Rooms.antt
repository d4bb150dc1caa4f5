-- ===== src/Service/Rooms.antt =====
-- Creating and joining rooms.
use chatroom_server.Prelude.{
  ◌≡◌, refl, ap, ◌∙◌, subst, true, false, Bytes, bytes, if◌then◌else◌, arith, Bool-cases, inl, inr,
}
use chatroom_server.Sql.Tables.{Tables, has, room_named}
use chatroom_server.Sql.Statement.{insert_room, insert_member, apply}
use chatroom_server.Sql.Laws.{IsSqlite, IsPlain}
use chatroom_server.Platform.{Platform}
use chatroom_server.Platform.Monad.{World, returned}
use chatroom_server.Db.Rooms as db_rooms
use chatroom_server.Db.Writes
use chatroom_server.Db.Writes.{Holds, call, call-apply}
use chatroom_server.Epoll.Rooms.{create_room, join_room}
use chatroom_server.Service.Fields.{HasTexts}

insert_member-succeeds : (n u : Bytes) (t : Tables) → (apply (insert_member n u) t).1 ≡ true
unfolding apply
insert_member-succeeds n u t = ground arith

insert_room-taken :
    (n c : Bytes) (t : Tables)
    → has (room_named n) t.rooms ≡ true
    → ((apply (insert_room n c) t).0 ≡ t) × ((apply (insert_room n c) t).1 ≡ false)
unfolding apply
insert_room-taken n c t e = rw e (refl, refl)

insert_room-free :
    (n c : Bytes) (t : Tables)
    → has (room_named n) t.rooms ≡ false
    → (apply (insert_room n c) t).1 ≡ true
unfolding apply
insert_room-free n c t e = rw e

abbrev success : Bytes
success = bytes "{\"status\":\"success\"}"

module _ (P : Platform) (L : IsSqlite P.sqlite) (body : Bytes) where
  open P.sqlite use {Db}

  added :
      (w : World Db) (t : Tables) (n u : Bytes)
      → Holds P L w t
      → IsPlain n
      → IsPlain u
      → ((db_rooms.add_user_to_room P n u w).0 ≡ returned true)
        × Holds P L (db_rooms.add_user_to_room P n u w).1 (apply (insert_member n u) t).0
  unfolding call
  added w t n u h a b =
      let (answer, after) = call-apply P L (Writes.add_user_to_room n u) w t (a, b) h in
      (rw (← insert_member-succeeds n u t) answer, after)

  created :
      (w : World Db) (t : Tables) (n c : Bytes)
      → Holds P L w t
      → IsPlain n
      → IsPlain c
      → ((db_rooms.create_room P n c w).0 ≡ returned (apply (insert_room n c) t).1)
        × Holds P L (db_rooms.create_room P n c w).1 (apply (insert_room n c) t).0
  unfolding call
  created w t n c h a b = call-apply P L (Writes.create_room n c) w t (a, b) h

  -- On an open database, and for a request whose room and user hold no quote and no NUL byte,
  -- joining succeeds and records the member, whether or not there is such a room or such a user.
  pub join_room_lem :
      (w : World Db) (t : Tables) (n u : Bytes)
      → Holds P L w t
      → IsPlain n
      → IsPlain u
      → HasTexts P body (bytes "room") n (bytes "username") u
      → ((join_room P body w).0 ≡ returned success)
        × Holds P L (join_room P body w).1 (apply (insert_member n u) t).0
  unfolding join_room
  join_room_lem w t n u h a b (doc, parsed, (has_n, get_n), (has_u, get_u)) =
      let (answer, after) = added w t n u h a b in
      rw (parsed, has_n, has_u, get_n, get_u)
        (ground arith, (after.0, ground (arith, answer, after.1), ground (arith, answer, after.2)))

  -- On an open database, and for a request whose name and creator hold no quote and no NUL byte, a
  -- room is created exactly if its name is free, and its creator is then a member; otherwise the
  -- answer is a failure and the tables stay as they are.
  pub create_room_lem :
      (w : World Db) (t : Tables) (n c : Bytes)
      → Holds P L w t
      → IsPlain n
      → IsPlain c
      → HasTexts P body (bytes "name") n (bytes "creator") c
      → ((create_room P body w).0
          ≡ returned (
              if has (room_named n) t.rooms
              then bytes "{\"error\":\"Failed to create room\"}"
              else success))
        × Holds P L (create_room P body w).1 (
            if has (room_named n) t.rooms
            then t
            else (apply (insert_member n c) (apply (insert_room n c) t).0).0)
  unfolding create_room
  create_room_lem w t n c h a b (doc, parsed, (has_n, get_n), (has_c, get_c)) =
      let (answer, after) = created w t n c h a b in
      let v = (db_rooms.create_room P n c w).1 in
      let (joined, inside) = added v (apply (insert_room n c) t).0 n c after a b in
      rw (parsed, has_n, has_c, get_n, get_c)
        (elim (Bool-cases (has (room_named n) t.rooms)) [
          | inl taken ↦
              let same = insert_room-taken n c t taken in
              let answer' = answer ∙ ap returned same.1 in
              let after' = subst (Holds P L v) same.0 after in
              rw taken (
                ground (arith, answer'),
                (after'.0, ground (arith, answer', after'.1), ground (arith, answer', after'.2)),
              )
          | inr free ↦
              let answer' = answer ∙ ap returned (insert_room-free n c t free) in
              rw free (
                ground (arith, answer', joined),
                (
                  inside.0,
                  ground (arith, answer', joined, inside.1),
                  ground (arith, answer', joined, inside.2),
                ),
              )
        ])
