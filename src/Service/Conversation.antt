-- ===== src/Service/Conversation.antt =====
-- A message that was sent, read back: /send_message and then /messages of
-- src/chatroom_server_epoll.cpp.
use mathlib.Core.List.{Perm}
use chatroom_server.Prelude.{
  ℕ, ◌+◌, ◌/◌, ◌<◌, ◌^◌, ◌++◌, ◌≡◌, refl, ap, ◌∙◌, sym, subst, Bool, true, false, Bytes, bytes,
  bytes_eq_refl, Option, none, some, List, [], ◌∷◌, map, ltb, ℤ, arith,
}
use chatroom_server.Sql.{Row}
use chatroom_server.Sql.Tables.{Tables, MessageRow, keep, message_in}
use chatroom_server.Sql.Statement.{insert_message, apply}
use chatroom_server.Sql.Laws.{IsSqlite, IsPlain, Ascending}
use chatroom_server.Sql.Keys.{UniqueKeys, apply-UniqueKeys}
use chatroom_server.Platform.{Platform}
use chatroom_server.Platform.Monad.{World, returned}
use chatroom_server.Db.Texts.{since_of}
use chatroom_server.Db.Messages.{row_message}
use chatroom_server.Db.Writes.{Holds}
use chatroom_server.Db.Listings.{Timely, message_json}
use chatroom_server.Epoll.Messages.{send_message, messages}
use chatroom_server.Service.Fields.{HasText}
use chatroom_server.Service.Messages.{seen, send_message_lem}
use chatroom_server.Service.Listing.{seen-messages, seen-UniqueKeys, messages_lem}

keep-append :
    {A : Type 0} (p : A → Bool) (xs : List A) (y : A)
    → p y ≡ true
    → keep p (xs ++ y ∷ []) ≡ keep p xs ++ y ∷ []
unfolding keep
keep-append p [] y h = rw h refl
keep-append p (x ∷ xs) y h = ground (arith, keep-append p xs y h)

map-append :
    {A B : Type 0} (f : A → B) (xs : List A) (y : A) → map f (xs ++ y ∷ []) ≡ map f xs ++ f y ∷ []
map-append f [] y = refl
map-append f (x ∷ xs) y = ap (λ zs. f x ∷ zs) (map-append f xs y)

-- A time is after the bound, if there is one.
abbrev pub is_after : Option ℕ → ℕ → Bool
is_after none time = true
is_after (some since) time = ltb since time

message_in-is_after :
    (n u c : Bytes) (time : ℕ) (o : Option ℕ)
    → message_in n o (record { room_name = n; username = u; message = c; timestamp = time })
      ≡ is_after o time
message_in-is_after n u c time none = bytes_eq_refl n
message_in-is_after n u c time (some since) = rw (bytes_eq_refl n) refl

-- The body of a request to /send_message, and of one to /messages.
pub record Sending (P : Platform) (body n u c : Bytes) : Type 0 where
  pub doc : P.json.Json
  pub parsed : P.json.parse body ≡ some doc
  pub room : HasText P doc (bytes "room") n
  pub user : HasText P doc (bytes "username") u
  pub content : HasText P doc (bytes "content") c

pub record Reading (P : Platform) (body n v : Bytes) (since : ℤ) : Type 0 where
  pub doc : P.json.Json
  pub parsed : P.json.parse body ≡ some doc
  pub room : HasText P doc (bytes "room") n
  pub user : HasText P doc (bytes "username") v
  pub there : P.json.contains doc (bytes "since") ≡ true
  pub given : P.json.null_at doc (bytes "since") ≡ false
  pub number : P.json.int_at doc (bytes "since") ≡ some since

-- A message that is sent in this state.
abbrev pub message_at : (P : Platform) → World P.sqlite.Db → Bytes → Bytes → Bytes → MessageRow
message_at P w n u c = record {
  room_name = n;
  username = u;
  message = c;
  timestamp = P.clock w.reads / 1_000_000;
}

append-Timely :
    (ms : List MessageRow) (m : MessageRow)
    → Timely ms
    → m.timestamp < 2 ^ 63
    → Timely (ms ++ m ∷ [])
append-Timely [] m h l = (l, tt)
append-Timely (x ∷ ms) m (a, h) l = (a, append-Timely ms m h l)

module _ (P : Platform) (L : IsSqlite P.sqlite) where
  open P.sqlite use {Db}
  open P.json use {array, dump}

  -- A message that was sent is read back: on an open database with unique keys, for texts without
  -- quotes and NUL bytes and times that fit into 63 bits, sending succeeds, and a request for the
  -- messages of the room that follows, with a `since` that is not positive or is below the time of
  -- the message, is answered with the text of an array that has, by ascending timestamp, an object
  -- for each earlier message of the room after `since`, one for the message sent, and nothing else.
  pub send-messages :
      (body body' n u c v : Bytes) (since : ℤ) (w : World Db) (t : Tables)
      → Holds P L w t
      → UniqueKeys t
      → Timely t.messages
      → IsPlain n
      → IsPlain u
      → IsPlain c
      → IsPlain v
      → Sending P body n u c
      → Reading P body' n v since
      → (message_at P w n u c).timestamp < 2 ^ 63
      → is_after (since_of since) (message_at P w n u c).timestamp ≡ true
      → let w' = (send_message P body w).1 in
        ((send_message P body w).0 ≡ returned (bytes "{\"status\":\"success\"}"))
        × (rows : List Row) × ((text : Bytes)
            → dump (array (map (row_message P) rows)) ≡ some text
            → (messages P body' w').0 ≡ returned text)
        × Perm (map (row_message P) rows) (
            map (message_json P) (keep (message_in n (since_of since)) t.messages)
            ++ message_json P (message_at P w n u c) ∷ [])
        × Ascending rows
  unfolding apply
  send-messages body body' n u c v since w t h k timely pn pu pc pv s r l after =
      let time = (message_at P w n u c).timestamp in
      let t1 = seen P (P.clock (w.reads + 1)) u t in
      let same = seen-messages P (P.clock (w.reads + 1)) u t in
      let (answer, holds) =
        send_message_lem P L body w t n u c h k pn pu pc s.doc s.parsed s.room s.user s.content in
      let keys =
        apply-UniqueKeys (insert_message n u c time) t1
          (seen-UniqueKeys P (P.clock (w.reads + 1)) u t k) in
      let timely1 =
        append-Timely t1.messages (message_at P w n u c) (subst (λ ms. Timely ms) (sym same) timely)
          l in
      let (rows, reply, perm, order) =
        messages_lem P L body' n v since pn pv r.doc r.parsed r.room r.user r.there r.given r.number
          (send_message P body w).1 _ holds keys timely1 in
      let kept =
        keep-append (message_in n (since_of since)) t.messages (message_at P w n u c)
          (message_in-is_after n u c time (since_of since) ∙ after) in
      (
        answer,
        rows,
        (λ text dumped. (reply text dumped).0),
        subst (Perm (map (row_message P) rows))
            (ap
                (λ ms.
                  map (message_json P)
                    (keep (message_in n (since_of since)) (ms ++ message_at P w n u c ∷ [])))
                same
              ∙ ap (map (message_json P)) kept
              ∙ map-append (message_json P) _ (message_at P w n u c))
            perm,
        order,
      )
