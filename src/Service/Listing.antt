-- ===== src/Service/Listing.antt =====
-- What /messages of src/chatroom_server_epoll.cpp answers.
use mathlib.Core.List.{Perm}
use chatroom_server.Prelude.{
  ℕ, ◌≡◌, refl, ap, sym, subst, Bool, true, false, ◌&&◌, Bytes, bytes, some, List, map, ℤ,
  Bool-cases, inl, inr, arith,
}
use chatroom_server.Sql.{Row}
use chatroom_server.Sql.Tables.{Tables, has, named, keep, message_in}
use chatroom_server.Sql.Statement.{set_active, apply}
use chatroom_server.Sql.Laws.{IsSqlite, IsPlain, Ascending}
use chatroom_server.Sql.Keys.{UniqueKeys, apply-UniqueKeys}
use chatroom_server.Platform.{Platform}
use chatroom_server.Platform.Monad.{World, returned}
use chatroom_server.Db.Texts.{since_of}
use chatroom_server.Db.Users.{check_and_update_inactive_users, set_user_last_active_time}
use chatroom_server.Db.Messages.{get_room_messages, row_message}
use chatroom_server.Db.Writes
use chatroom_server.Db.Writes.{Holds, call, call-apply}
use chatroom_server.Db.Listings.{Timely, message_json, get_room_messages_lem}
use chatroom_server.Epoll.Messages.{messages}
use chatroom_server.Service.Fields.{HasText}
use chatroom_server.Service.Messages.{seen, check_and_update_lem}

pub seen-messages :
    (P : Platform) (time : ℕ) (u : Bytes) (t : Tables) → (seen P time u t).messages ≡ t.messages
unfolding apply
seen-messages P time u t = ground arith

pub seen-UniqueKeys :
    (P : Platform) (time : ℕ) (u : Bytes) (t : Tables) → UniqueKeys t → UniqueKeys (seen P time u t)
seen-UniqueKeys P time u t k = elim (Bool-cases (has (λ r. named u r && r.is_online) t.users)) [
  | inl online ↦ rw online (apply-UniqueKeys (set_active u time) t k)
  | inr gone ↦ rw gone k
]

module _ (P : Platform) (L : IsSqlite P.sqlite) where
  open P.sqlite use {Db}
  open P.json use {array, dump}

  module _ (body : Bytes) (n v : Bytes) (since : ℤ) (plain_n : IsPlain n) (plain_v : IsPlain v)
      (doc : P.json.Json) (parsed : P.json.parse body ≡ some doc)
      (room : HasText P doc (bytes "room") n) (user : HasText P doc (bytes "username") v)
      (there : P.json.contains doc (bytes "since") ≡ true)
      (given : P.json.null_at doc (bytes "since") ≡ false)
      (number : P.json.int_at doc (bytes "since") ≡ some since) where
    -- The tables after the request, which updates the activity of the user twice.
    abbrev pub read_by : World Db → Tables → Tables
    read_by w t =
        let w1 = (check_and_update_inactive_users P v w).1 in
        (apply (set_active v (P.clock w1.reads)) (seen P (P.clock w.reads) v t)).0

    messages-run :
        (w w1 w2 : World Db) (found : List P.json.Json) (online saved : Bool) (text : Bytes)
        → check_and_update_inactive_users P v w ≡ (returned online, w1)
        → get_room_messages P n since w1 ≡ (returned found, w1)
        → set_user_last_active_time P v w1 ≡ (returned saved, w2)
        → dump (array found) ≡ some text
        → messages P body w ≡ (returned text, w2)
    unfolding messages
    messages-run w w1 w2 found online saved text a b c d =
        rw (parsed, user.0, user.1, a, room.0, there, room.1, given, number, b, c, d) refl

    pub messages_lem :
        (w : World Db) (t : Tables)
        → Holds P L w t
        → UniqueKeys t
        → Timely t.messages
        → (rows : List Row) × ((text : Bytes)
            → dump (array (map (row_message P) rows)) ≡ some text
            → ((messages P body w).0 ≡ returned text)
              × Holds P L (messages P body w).1 (read_by w t))
          × Perm
              (map (row_message P) rows)
              (map (message_json P) (keep (message_in n (since_of since)) t.messages))
          × Ascending rows
    unfolding messages call
    messages_lem w t h k timely =
        let (checked, holds) = check_and_update_lem P L w t v h k plain_v in
        let w1 = (check_and_update_inactive_users P v w).1 in
        let t1 = seen P (P.clock w.reads) v t in
        let same = seen-messages P (P.clock w.reads) v t in
        let (rows, found, perm, order) =
          get_room_messages_lem P L w1 t1 holds n since plain_n
            (subst (λ ms. Timely ms) (sym same) timely) in
        let (answer, after) =
          call-apply P L (Writes.set_user_last_active_time v) w1 t1 plain_v holds in
        (
          rows,
          (λ text dumped.
              let run =
                messages-run w w1 (set_user_last_active_time P v w1).1 (map (row_message P) rows) _
                  _ text (ap (λ o. (o, w1)) checked) found
                  (ap (λ o. (o, (set_user_last_active_time P v w1).1)) answer) dumped in
              rw run (refl, after)),
          subst
              (λ ms.
                Perm (map (row_message P) rows)
                  (map (message_json P) (keep (message_in n (since_of since)) ms)))
              same perm,
          order,
        )
