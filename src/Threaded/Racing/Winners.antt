-- ===== src/Threaded/Racing/Winners.antt =====
-- At most one of several registrations of a name at once is successful
-- (POST /register in src/chatroom_server.cpp).
use chatroom_server.Prelude.{
  ℕ, zero, suc, ◌<◌, ◌≤◌, ◌≡◌, refl, Bytes, Bool-cases, inl, inr, of_if, List, [], ◌∷◌, All, ◌==◌,
  ltb, ltb→lt, arith,
}
use chatroom_server.Sql.Tables.{Tables}
use chatroom_server.Sql.Laws.{IsSqlite}
use chatroom_server.Sql.Growth.{rows_of}
use chatroom_server.Platform.{Platform}
use chatroom_server.Platform.Monad.{World}
use chatroom_server.Utils.Counting.{update, total, total-update}
use chatroom_server.Db.Writes.{Holds}
use chatroom_server.Db.Store.{Store, expected}
use chatroom_server.Db.Traces.{Represents, perform-expected}
use chatroom_server.Threaded.Racing.{
  Registering, asking, creating, answered, Race, Turn, registered, other, with_thread, register_on,
  take_turn, take_turns,
}
use chatroom_server.Threaded.Racing.Registers.{
  won, PlainThread, IsAsking, PlainTurn, IsKnown, expected-rows_of-le, register_on-Registers,
}

module _ (P : Platform) (L : IsSqlite P.sqlite) where
  open P.sqlite use {Db}

  -- The race against the store: at most as many registrations of a name have won as there are rows
  -- with it.
  record IsFair (n : ℕ) (s : Race Db) (m : Store) : Type 0 where
    represents : Represents P L s.world m
    plain : (i : ℕ) → PlainThread (s.threads i)
    fair : (u : Bytes) → total (won u) n s.threads ≤ rows_of u m.tables
    known : (i : ℕ) → IsKnown (s.threads i) m.tables

  IsKnown-grown :
      (r : Registering) (t t' : Tables)
      → ((u : Bytes) → rows_of u t ≤ rows_of u t')
      → IsKnown r t
      → IsKnown r t'
  IsKnown-grown (asking u p) t t' h k = tt
  IsKnown-grown (creating u p) t t' h k = tt
  IsKnown-grown (answered u created response) t t' h k = omega (arith, h u)

  update-all :
      (Q : Registering → Type 0) (f : ℕ → Registering) (i : ℕ) (r : Registering)
      → ((j : ℕ) → Q (f j))
      → Q r
      → (j : ℕ) → Q (update f i r j)
  update-all Q f i r h k j = of_if Q (i == j) r (f j) (λ e. k) (λ e. h j)

  registered-IsFair :
      (n i : ℕ) (s : Race Db) (m : Store)
      → i < n
      → IsFair n s m
      → (m' : Store) × IsFair n (with_thread i s (register_on P (s.threads i) s.world)) m'
  registered-IsFair n i s m h f =
      let r = register_on P (s.threads i) s.world in
      let g =
        register_on-Registers P L (s.threads i) s.world m f.represents (f.plain i) (f.known i) in
      (
        g.store,
        record {
          represents = g.represents;
          plain = update-all PlainThread s.threads i r.0 f.plain g.plain;
          fair = λ u. omega (arith, total-update (won u) n i s.threads r.0 h, g.grows u, f.fair u);
          known =
              update-all (λ x. IsKnown x g.store.tables) s.threads i r.0
                (λ j. IsKnown-grown (s.threads j) m.tables g.store.tables g.more (f.known j))
                g.known;
        },
      )

  turn-IsFair :
      (n : ℕ) (t : Turn) (s : Race Db) (m : Store)
      → PlainTurn t
      → IsFair n s m
      → (m' : Store) × IsFair n (take_turn P n t s) m'
  unfolding take_turn
  turn-IsFair n (registered i) s m q f = elim (Bool-cases (ltb i n)) [
    | inl y ↦ rw y (registered-IsFair n i s m (ltb→lt _ _ y) f)
    | inr y ↦ rw y (m, f)
  ]
  turn-IsFair n (other c) s m q f =
      let more = λ (u : Bytes). expected-rows_of-le P L c u m in
      (
        (expected P c m).1,
        record {
          represents = (perform-expected P L c s.world m f.represents q).1;
          plain = f.plain;
          fair = λ u. omega (arith, f.fair u, more u);
          known =
              λ i. IsKnown-grown (s.threads i) m.tables (expected P c m).1.tables more (f.known i);
        },
      )

  turns-IsFair :
      (n : ℕ) (ts : List Turn) (s : Race Db) (m : Store)
      → All PlainTurn ts
      → IsFair n s m
      → (m' : Store) × IsFair n (take_turns P n ts s) m'
  unfolding take_turns
  turns-IsFair n [] s m q f = (m, f)
  turns-IsFair n (t ∷ ts) s m (q, qs) f =
      let (m', f') = turn-IsFair n t s m q f in turns-IsFair n ts (take_turn P n t s) m' qs f'

  starting : (r : Registering) → IsAsking r → (u : Bytes) → (won u r ≡ 0)
  unfolding won
  starting (asking u p) h v = refl
  starting (creating u p) h v = absurd h
  starting (answered u created response) h v = absurd h

  starting-known : (r : Registering) (t : Tables) → IsAsking r → IsKnown r t
  starting-known (asking u p) t h = tt
  starting-known (creating u p) t h = absurd h
  starting-known (answered u created response) t h = absurd h

  total-starting :
      (n : ℕ) (threads : ℕ → Registering) (u : Bytes)
      → ((i : ℕ) → IsAsking (threads i))
      → total (won u) n threads ≡ 0
  unfolding total
  total-starting zero threads u h = refl
  total-starting (suc n) threads u h =
      omega (arith, starting (threads n) (h n) u, total-starting n threads u h)

  -- Registrations by n threads at once, their calls and other calls of DatabaseManager in any order,
  -- from an open database that corresponds to a store, with arguments without quotes and NUL bytes:
  -- of the registrations of a name at most one was successful, and the name of each one that was
  -- answered is in the table of users.
  pub take_turns-won :
      (n : ℕ) (ts : List Turn) (threads : ℕ → Registering) (w : World Db) (m : Store)
      → All PlainTurn ts
      → ((i : ℕ) → IsAsking (threads i))
      → ((i : ℕ) → PlainThread (threads i))
      → Represents P L w m
      → let s = take_turns P n ts (record { world = w; threads = threads }) in
        ((u : Bytes) → total (won u) n s.threads ≤ 1)
        × ((t : Tables) × Holds P L s.world t × ((i : ℕ) → IsKnown (s.threads i) t))
  take_turns-won n ts threads w m q first plain r =
      let (m', f) =
        turns-IsFair n ts (record { world = w; threads = threads }) m q
          (record {
            represents = r;
            plain = plain;
            fair = λ u. omega (arith, total-starting n threads u first);
            known = λ i. starting-known (threads i) m.tables (first i);
          }) in
      (
        λ u. omega (arith, f.fair u, f.represents.keys.user_key u),
        (m'.tables, f.represents.holds, f.known),
      )
