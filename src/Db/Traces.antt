-- ===== src/Db/Traces.antt =====
-- DatabaseManager (src/db/database_manager.hpp) against the abstract store: the same answers and the
-- same tables after any sequence of calls of its methods.
use chatroom_server.Prelude.{
  ℕ, ◌+◌, ◌≡◌, ◌∙◌, refl, ap, subst, Bool, true, false, Bool-cases, inl, inr, Bytes, List, [], ◌∷◌,
  All, All-append, arith, if◌then◌else◌,
}
use chatroom_server.Sql.Tables.{Tables, has, named, room_named, member_is}
use chatroom_server.Sql.Statement.{apply}
use chatroom_server.Sql.Laws.{IsSqlite, PlainStatement, IsPlain}
use chatroom_server.Sql.Keys.{UniqueKeys, apply-UniqueKeys}
use chatroom_server.Platform.{Platform}
use chatroom_server.Platform.Monad.{World, Outcome, returned, thrown, M, pure, continue, ◌>>=◌}
use chatroom_server.Db.Connection.{now}
use chatroom_server.Db.Users as Users
use chatroom_server.Db.Rooms as Rooms
use chatroom_server.Db.Messages as Messages
use chatroom_server.Db.Writes.{
  Call, create_user, set_user_online_status, set_user_last_active_time, create_room, delete_room_of,
  add_user_to_room, remove_user_from_room, save_message, intended, call, Holds, call-apply,
  execute_query-reads,
}
use chatroom_server.Db.Reads.{is_user_online_lem}
use chatroom_server.Db.Questions.{method, method-truth}
use chatroom_server.Db.Listings.{
  Timely, get_all_users_lem, get_online_users_lem, get_rooms_lem, get_room_users_lem,
  get_user_rooms_lem, get_room_messages_lem,
}
use chatroom_server.Db.Store.{
  Listing, online_users, all_users, room_users, user_rooms, rooms, room_messages, Command, write,
  question, check, listing, PlainCall, PlainCommand, Answer, said, users, names, messages, Returns,
  Store, reads_after, written, is_online, listed, expected, expected_all,
}

PlainCall-intended : (c : Call) (time : ℕ) → PlainCall c → PlainStatement (intended time c)
PlainCall-intended (create_user u p) time h = h
PlainCall-intended (set_user_online_status u online) time h = h
PlainCall-intended (set_user_last_active_time u) time h = h
PlainCall-intended (create_room n c) time h = h
PlainCall-intended (delete_room_of n) time h = h
PlainCall-intended (add_user_to_room n u) time h = h
PlainCall-intended (remove_user_from_room n u) time h = h
PlainCall-intended (save_message n u m t) time h = h.0

-- The messages are those before, on both branches.
kept-Timely :
    (b : Bool) (x y : Tables × Bool)
    → Timely x.0.messages
    → Timely y.0.messages
    → Timely (if b then x else y).0.messages
kept-Timely true x y h k = h
kept-Timely false x y h k = k

-- Only a message adds a timestamp.
written-Timely :
    (c : Call) (time : ℕ) (t : Tables)
    → PlainCall c
    → Timely t.messages
    → Timely (apply (intended time c) t).0.messages
unfolding apply
written-Timely (create_user u p) time t h k = kept-Timely (has (named u) t.users) (t, false) _ k k
written-Timely (set_user_online_status u online) time t h k = k
written-Timely (set_user_last_active_time u) time t h k = k
written-Timely (create_room n c) time t h k =
    kept-Timely (has (room_named n) t.rooms) (t, false) _ k k
written-Timely (delete_room_of n) time t h k = k
written-Timely (add_user_to_room n u) time t h k =
    kept-Timely (has (member_is n u) t.members) (t, true) _ k k
written-Timely (remove_user_from_room n u) time t h k = k
written-Timely (save_message n u m s) time t (plain, small) k =
    All-append _ t.messages _ k (small, tt)

module _ (P : Platform) where
  open P.sqlite use {Db}
  open P.json use {Json}

  abbrev pub as_answer : {A : Type 0} → (A → Answer Json) → M Db A → M Db (Answer Json)
  as_answer f m = m >>= λ a. pure (f a)

  unfoldable pub list_of : Listing → M Db (Answer Json)
  list_of online_users = as_answer users (Users.get_online_users P)
  list_of all_users = as_answer users (Users.get_all_users P)
  list_of (room_users n) = as_answer names (Rooms.get_room_users P n)
  list_of (user_rooms u) = as_answer names (Rooms.get_user_rooms P u)
  list_of rooms = as_answer names (Rooms.get_rooms P)
  list_of (room_messages n since) = as_answer messages (Messages.get_room_messages P n since)

  unfoldable pub perform : Command → M Db (Answer Json)
  perform (write c) = as_answer said (call P c)
  perform (question q) = as_answer said (method P q)
  perform (check u) = as_answer said (Users.check_and_update_inactive_users P u)
  perform (listing l) = list_of l

  -- The calls one after the other, and what each returns.
  unfoldable pub perform_all : List Command → World Db → List (Outcome (Answer Json)) × World Db
  perform_all [] w = ([], w)
  perform_all (c ∷ cs) w =
      let (outcome, w') = perform c w in
      let (outcomes, w'') = perform_all cs w' in (outcome ∷ outcomes, w'')

  -- Each call returns, with an answer like the store's.
  abbrev pub ReturnAll : List (Answer Json) → List (Outcome (Answer Json)) → Type 0
  ReturnAll [] [] = Unit
  ReturnAll [] (o ∷ os) = ⊥
  ReturnAll (a ∷ as') [] = ⊥
  ReturnAll (a ∷ as') (o ∷ os) = Returns a o × ReturnAll as' os

  module _ (L : IsSqlite P.sqlite) where
    call-reads : (c : Call) (w : World Db) → (call P c w).1.reads ≡ reads_after c w.reads
    unfolding call Users.create_user Users.set_user_online_status Users.set_user_last_active_time
        Rooms.create_room Rooms.delete_room Rooms.add_user_to_room Rooms.remove_user_from_room
        Messages.save_message now
    call-reads (create_user u p) w = execute_query-reads P L _ w w.db refl
    call-reads (set_user_online_status u online) w = execute_query-reads P L _ w w.db refl
    call-reads (set_user_last_active_time u) w =
        execute_query-reads P L _ (record w { reads = w.reads + 1 }) w.db refl
    call-reads (create_room n c) w = execute_query-reads P L _ w w.db refl
    call-reads (delete_room_of n) w = execute_query-reads P L _ w w.db refl
    call-reads (add_user_to_room n u) w = execute_query-reads P L _ w w.db refl
    call-reads (remove_user_from_room n u) w = execute_query-reads P L _ w w.db refl
    call-reads (save_message n u m t) w = execute_query-reads P L _ w w.db refl

    -- The connection is open on a database with these tables, whose keys are unique and whose
    -- timestamps fit into 63 bits.
    pub record Represents (w : World Db) (m : Store) : Type 0 where
      pub holds : Holds P L w m.tables
      pub keys : UniqueKeys m.tables
      pub timely : Timely m.tables.messages
      pub reads_eq : w.reads ≡ m.reads

    -- What a method does to the connection and the store.
    abbrev pub Simulates : Outcome (Answer Json) × World Db → Answer Json × Store → Type 0
    Simulates (outcome, w) (answer, m) = Returns answer outcome × Represents w m

    pub call-written :
        (c : Call) (w : World Db) (m : Store)
        → Represents w m
        → PlainCall c
        → ((call P c w).0 ≡ returned (written P.clock c m).0)
          × Represents (call P c w).1 (written P.clock c m).1
    unfolding written
    call-written c w m r h =
        let st = intended (P.clock w.reads) c in
        let st' = intended (P.clock m.reads) c in
        let same : st ≡ st' = ap (λ n. intended (P.clock n) c) r.reads_eq in
        let (answer, after) =
          call-apply P L c w m.tables (PlainCall-intended c (P.clock w.reads) h) r.holds in
        (
          answer ∙ ap (λ s. returned (apply s m.tables).1) same,
          record {
            holds = subst (λ s. Holds P L (call P c w).1 (apply s m.tables).0) same after;
            keys = apply-UniqueKeys st' m.tables r.keys;
            timely = written-Timely c (P.clock m.reads) m.tables h r.timely;
            reads_eq = call-reads c w ∙ ap (reads_after c) r.reads_eq;
          },
        )

    -- A `bool` that was returned.
    said-Simulates :
        (o : Outcome Bool × World Db) (b : Bool) (m : Store)
        → o.0 ≡ returned b
        → Represents o.1 m
        → Simulates (continue (λ a. pure (said a)) o) (said b, m)
    said-Simulates (returned a, w) b m e r = (ground (arith, e), r)
    said-Simulates (thrown, w) b m e r = ground (arith, e)

    listed-Simulates :
        (l : Listing) (w : World Db) (m : Store)
        → Represents w m
        → PlainCommand (listing l)
        → Simulates (list_of l w) (listed P l m.tables, m)
    unfolding list_of
    listed-Simulates online_users w m r h =
        let (us, e, perm) = get_online_users_lem P L w m.tables r.holds in rw e (perm, r)
    listed-Simulates all_users w m r h =
        let (us, e, perm) = get_all_users_lem P L w m.tables r.holds in rw e (perm, r)
    listed-Simulates (room_users n) w m r h =
        let (us, e, perm) = get_room_users_lem P L w m.tables r.holds n h in rw e (perm, r)
    listed-Simulates (user_rooms u) w m r h =
        let (us, e, perm) = get_user_rooms_lem P L w m.tables r.holds u h in rw e (perm, r)
    listed-Simulates rooms w m r h =
        let (us, e, perm) = get_rooms_lem P L w m.tables r.holds in rw e (perm, r)
    listed-Simulates (room_messages n since) w m r h =
        let (rows, e, perm, order) =
          get_room_messages_lem P L w m.tables r.holds n since h r.timely in
        rw e (perm, r)

    checked-Simulates :
        (u : Bytes) (w : World Db) (m : Store)
        → Represents w m
        → IsPlain u
        → Simulates (perform (check u) w) (expected P (check u) m)
    unfolding perform expected Users.check_and_update_inactive_users call
    checked-Simulates u w m r h =
        let (answer, after) = call-written (set_user_last_active_time u) w m r h in
        rw (is_user_online_lem P L w m.tables r.holds r.keys u h)
          (elim (Bool-cases (is_online u m.tables)) [
            | inl here ↦
                rw here (said-Simulates (Users.set_user_last_active_time P u w) _ _ answer after)
            | inr gone ↦ rw gone (refl, r)
          ])

    pub perform-expected :
        (c : Command) (w : World Db) (m : Store)
        → Represents w m
        → PlainCommand c
        → Simulates (perform c w) (expected P c m)
    unfolding perform expected
    perform-expected (write c) w m r h =
        let (answer, after) = call-written c w m r h in said-Simulates (call P c w) _ _ answer after
    perform-expected (question q) w m r h =
        let same = method-truth P L q w m.tables r.holds r.keys h in rw same (refl, r)
    perform-expected (check u) w m r h = checked-Simulates u w m r h
    perform-expected (listing l) w m r h = listed-Simulates l w m r h

    -- DatabaseManager is the abstract store: from states that correspond, an open database with
    -- unique keys, 63-bit timestamps and these tables, any sequence of calls of its public methods,
    -- with arguments without quotes and NUL bytes and with 63-bit timestamps, throws nothing,
    -- returns the answers of the store, up to the order of a list, and ends in states that
    -- correspond.
    pub perform_all-expected_all :
        (cs : List Command) (w : World Db) (m : Store)
        → Represents w m
        → All PlainCommand cs
        → ReturnAll (expected_all P cs m).0 (perform_all cs w).0
          × Represents (perform_all cs w).1 (expected_all P cs m).1
    unfolding perform_all expected_all
    perform_all-expected_all [] w m r h = (tt, r)
    perform_all-expected_all (c ∷ cs) w m r (h, hs) =
        let (answer, r') = perform-expected c w m r h in
        let (answers, r'') = perform_all-expected_all cs (perform c w).1 (expected P c m).1 r' hs in
        ((answer, answers), r'')
