-- ===== src/Threaded/Racing/Registers.antt =====
-- A step of a registration (POST /register of src/chatroom_server.cpp) against the store.
use chatroom_server.Prelude.{
  ℕ, ◌+◌, ◌<◌, ◌≤◌, ◌≡◌, refl, Bool, true, false, Bytes, bytes_eq, bytes_eq_iff, Bool-cases, inl,
  inr, of_if, if◌then◌else◌, arith,
}
use chatroom_server.Sql.Tables.{Tables, has, named, named_with}
use chatroom_server.Sql.Statement.{insert_user}
use chatroom_server.Sql.Laws.{IsSqlite, IsPlain}
use chatroom_server.Sql.Keys.{has-count_of}
use chatroom_server.Sql.Growth.{rows_of, insert_user-rows_of, apply-rows_of-le, insert_user-taken}
use chatroom_server.Platform.{Platform}
use chatroom_server.Platform.Monad.{World, Outcome, returned, thrown}
use chatroom_server.Db.Users as Users
use chatroom_server.Db.Writes as writes
use chatroom_server.Db.Writes.{Holds, intended, call}
use chatroom_server.Db.Reads.{validate_user_lem}
use chatroom_server.Db.Store.{
  Command, write, question, check, listing, PlainCommand, said, Store, written, is_online, saying,
  expected,
}
use chatroom_server.Db.Traces.{Represents, call-written}
use chatroom_server.Service.Accounts.{has-named}
use chatroom_server.Threaded.Racing.{
  Registering, asking, creating, answered, after_validate, after_create, Turn, registered, other,
  register_on,
}

-- One for a registration of this name that was successful.
unfoldable pub won : Bytes → Registering → ℕ
won u (asking v p) = 0
won u (creating v p) = 0
won u (answered v true response) = if bytes_eq v u then 1 else 0
won u (answered v false response) = 0

-- No quotes and NUL bytes in what is yet to be sent to the database.
abbrev pub PlainThread : Registering → Type 0
PlainThread (asking u p) = IsPlain u × IsPlain p
PlainThread (creating u p) = IsPlain u × IsPlain p
PlainThread (answered u created response) = Unit

abbrev pub IsAsking : Registering → Type 0
IsAsking (asking u p) = Unit
IsAsking (creating u p) = ⊥
IsAsking (answered u created response) = ⊥

abbrev pub PlainTurn : Turn → Type 0
PlainTurn (registered i) = Unit
PlainTurn (other c) = PlainCommand c

-- The name of a registration that was answered is that of a row.
abbrev pub IsKnown : Registering → Tables → Type 0
IsKnown (asking u p) t = Unit
IsKnown (creating u p) t = Unit
IsKnown (answered u created response) t = 0 < rows_of u t

rows_of-has : (u : Bytes) (t : Tables) → has (named u) t.users ≡ true → 0 < rows_of u t
rows_of-has u t e = ground (arith, e, has-count_of (named u) t.users)

module _ (P : Platform) (L : IsSqlite P.sqlite) where
  open P.sqlite use {Db}

  pub expected-rows_of-le :
      (c : Command) (u : Bytes) (m : Store)
      → rows_of u m.tables ≤ rows_of u (expected P c m).1.tables
  unfolding expected written
  expected-rows_of-le (write c) u m = apply-rows_of-le (intended (P.clock m.reads) c) u m.tables
  expected-rows_of-le (question q) u m = omega arith
  expected-rows_of-le (check v) u m =
      of_if (λ x. rows_of u m.tables ≤ rows_of u x.1.tables) (is_online v m.tables)
        (saying P (written P.clock (writes.set_user_last_active_time v) m)) (said false, m)
        (λ e.
          apply-rows_of-le (intended (P.clock m.reads) (writes.set_user_last_active_time v)) u
            m.tables)
        (λ e. omega arith)
  expected-rows_of-le (listing l) u m = omega arith

  -- What a step of a registration does, against the store.
  pub record Registers (r : Registering) (m : Store) (o : Registering × World Db) : Type 0 where
    pub store : Store
    pub represents : Represents P L o.1 store
    pub plain : PlainThread o.0
    pub grows : (u : Bytes) → won u o.0 + rows_of u m.tables ≤ won u r + rows_of u store.tables
    pub more : (u : Bytes) → rows_of u m.tables ≤ rows_of u store.tables
    pub known : IsKnown o.0 store.tables

  validate-Registers :
      (u p : Bytes) (w : World Db) (m : Store)
      → Represents P L w m
      → IsPlain u
      → IsPlain p
      → Registers (asking u p) m (register_on P (asking u p) w)
  unfolding register_on
  validate-Registers u p w m r a b =
      rw (validate_user_lem P L w m.tables r.holds r.keys u p a b)
        (elim (Bool-cases (has (named_with u p) m.tables.users)) [
          | inl y ↦ rw y (
              unfold after_validate won in
              record {
                store = m;
                represents = r;
                plain = tt;
                grows = λ v. omega arith;
                more = λ v. omega arith;
                known = rows_of-has u m.tables (has-named u p m.tables.users y);
              })
          | inr y ↦ rw y (
              unfold after_validate won in
              record {
                store = m;
                represents = r;
                plain = (a, b);
                grows = λ v. omega arith;
                more = λ v. omega arith;
                known = tt;
              })
        ])

  create-Registers :
      (u p : Bytes) (o : Outcome Bool × World Db) (m : Store)
      → o.0 ≡ returned (written P.clock (writes.create_user u p) m).0
      → Represents P L o.1 (written P.clock (writes.create_user u p) m).1
      → Registers (creating u p) m (after_create u o)
  unfolding after_create won written
  create-Registers u p (returned true, w) m e r = record {
    store = (written P.clock (writes.create_user u p) m).1;
    represents = r;
    plain = tt;
    grows = λ v. ground (arith, e, insert_user-rows_of u p v m.tables);
    more = λ v. apply-rows_of-le (insert_user u p) v m.tables;
    known =
        let same : bytes_eq u u ≡ true = (bytes_eq_iff u u).1 refl in
        ground (arith, e, same, insert_user-rows_of u p u m.tables);
  }
  create-Registers u p (returned false, w) m e r = record {
    store = (written P.clock (writes.create_user u p) m).1;
    represents = r;
    plain = tt;
    grows = λ v. ground (arith, e, insert_user-rows_of u p v m.tables);
    more = λ v. apply-rows_of-le (insert_user u p) v m.tables;
    known =
        let taken = rows_of-has u m.tables (insert_user-taken u p m.tables (ground (arith, e))) in
        omega (arith, taken, apply-rows_of-le (insert_user u p) u m.tables);
  }
  create-Registers u p (thrown, w) m e r = ground (arith, e)

  pub register_on-Registers :
      (r : Registering) (w : World Db) (m : Store)
      → Represents P L w m
      → PlainThread r
      → IsKnown r m.tables
      → Registers r m (register_on P r w)
  unfolding register_on call
  register_on-Registers (asking u p) w m h (a, b) k = validate-Registers u p w m h a b
  register_on-Registers (creating u p) w m h (a, b) k =
      let (answer, after) = call-written P L (writes.create_user u p) w m h (a, b) in
      create-Registers u p (Users.create_user P u p w) m answer after
  register_on-Registers (answered u created response) w m h plain k = record {
    store = m;
    represents = h;
    plain = tt;
    grows = λ v. omega arith;
    more = λ v. omega arith;
    known = k;
  }
