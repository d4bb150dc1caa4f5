-- ===== src/Db/Reads.antt =====
-- The methods of src/db/database_manager.cpp that read the database, against the rows of its
-- tables.
use mathlib.Core.List.{Perm}
use chatroom_server.Prelude.{
  ℕ, ◌≤◌, ◌<◌, ◌^◌, ◌≡◌, refl, ap, subst, Bool, true, false, ◌&&◌, Bytes, c_str_lem, some, List, [],
  ◌∷◌, map, arith, pos, is_positive, ◌⊎◌, Bool-cases, inl, inr,
}
use chatroom_server.Sql.{Row}
use chatroom_server.Sql.Tables.{
  Tables, UserRow, keep, count_of, has, named, named_with, room_named, member_is,
}
use chatroom_server.Sql.Statement.{
  text_of_query, Query, count_user, count_login, online_of, count_member, count_room, ask, bit,
  count_row,
}
use chatroom_server.Sql.Laws.{IsSqlite, PlainQuery, IsPlain, Ordered}
use chatroom_server.Sql.Keys.{UniqueKeys, has-count_of, count_of_mono}
use chatroom_server.Sql.Rows.{perm-single, perm-empty}
use chatroom_server.Platform.{Platform}
use chatroom_server.Platform.Monad.{World, returned}
use chatroom_server.Db.Connection.{query_rows, first_column_positive}
use chatroom_server.Db.Texts.{
  count_user_text, count_login_text, online_of_text, count_member_text, count_room_text,
  text_of_query-no_nul,
}
use chatroom_server.Db.Users.{validate_user, is_user_online, is_user_exists}
use chatroom_server.Db.Rooms.{is_user_in_room, is_room_exists}
use chatroom_server.Db.Writes.{Holds}

module _ {ℓ} {A : Type ℓ} (p q : A → Bool) where
  keep-empty :
      (xs : List A) → count_of p xs ≡ 0 → (keep p xs ≡ []) × (has (λ x. p x && q x) xs ≡ false)
  unfolding keep has count_of
  keep-empty [] h = (refl, refl)
  keep-empty (x ∷ xs) h = ground (arith, keep-empty xs)

  -- A unique key selects no row or one, on which a further test decides.
  keep_cases :
      (xs : List A)
      → count_of p xs ≤ 1
      → ((keep p xs ≡ []) × (has (λ x. p x && q x) xs ≡ false))
        ⊎ ((r : A) × (keep p xs ≡ r ∷ []) × (has (λ x. p x && q x) xs ≡ q r))
  unfolding keep has count_of
  keep_cases [] h = inl (refl, refl)
  keep_cases (x ∷ xs) h = elim (Bool-cases (p x)) [
    | inl e ↦ inr (x, ground (arith, keep-empty xs), ground (arith, keep-empty xs))
    | inr e ↦ elim (keep_cases xs (ground arith)) [
      | inl (a, b) ↦ inl (ground arith, ground arith)
      | inr (r, a, b) ↦ inr (r, ground arith, ground arith)
    ]
  ]

pub bit-positive : (b : Bool) → is_positive (pos (bit b)) ≡ b
bit-positive true = refl
bit-positive false = refl

pub bit-small : (b : Bool) → bit b < 2 ^ 31
bit-small true = omega arith
bit-small false = omega arith

module _ (P : Platform) (L : IsSqlite P.sqlite) where
  open P.sqlite use {Db}

  -- The rows that a query's text gives on an open database.
  pub query_rows-ask :
      (q : Query) (w : World Db) (t : Tables)
      → PlainQuery q
      → Holds P L w t
      → (rows : List Row) × (query_rows P (text_of_query q) w ≡ some rows)
        × Perm rows (ask q t)
        × Ordered q rows
  unfolding query_rows
  query_rows-ask q w t p (d, e, s) =
      let (rows, found, perm, order) = L.prepare_rows d q p in
      (
        rows,
        rw (e, c_str_lem (text_of_query q) (text_of_query-no_nul q p)) found,
        subst (λ x. Perm rows (ask q x)) s perm,
        order,
      )

  first_column-row :
      (q : Query) (w : World Db) (t : Tables) (n : ℕ)
      → PlainQuery q
      → Holds P L w t
      → ask q t ≡ count_row n ∷ []
      → n < 2 ^ 31
      → first_column_positive P (text_of_query q) w ≡ (returned (is_positive (pos n)), w)
  unfolding first_column_positive
  first_column-row q w t n p h e small =
      let (rows, found, perm, order) = query_rows-ask q w t p h in
      let single : rows ≡ count_row n ∷ [] =
        perm-single rows (count_row n) (subst (Perm rows) e perm) in
      rw (found, single, L.column_int_lem (count_row n) 0 n refl small)

  no_row-positive :
      (q : Query) (w : World Db) (t : Tables)
      → PlainQuery q
      → Holds P L w t
      → ask q t ≡ []
      → first_column_positive P (text_of_query q) w ≡ (returned false, w)
  unfolding first_column_positive
  no_row-positive q w t p h e =
      let (rows, found, perm, order) = query_rows-ask q w t p h in
      let empty : rows ≡ [] = perm-empty rows (subst (Perm rows) e perm) in rw (found, empty)

  module _ (w : World Db) (t : Tables) (h : Holds P L w t) (k : UniqueKeys t) where
    login-le : (u p : Bytes) → count_of (named_with u p) t.users ≤ 1
    login-le u p = omega (
      arith,
      count_of_mono (named_with u p) (named u) (λ x e. ground arith) t.users,
      k.user_key u,
    )

    -- On an open database with unique keys, and for arguments without quotes and NUL bytes,
    -- `validateUser` is true exactly when a row has this name and this password; it changes
    -- nothing.
    pub validate_user_lem :
        (u p : Bytes)
        → IsPlain u
        → IsPlain p
        → validate_user P u p w ≡ (returned (has (named_with u p) t.users), w)
    unfolding validate_user ask
    validate_user_lem u p a b =
        rw (count_login_text u p, ← has-count_of (named_with u p) t.users)
          (first_column-row (count_login u p) w t _ (a, b) h refl (omega (arith, login-le u p)))

    pub is_user_exists_lem :
        (u : Bytes) → IsPlain u → is_user_exists P u w ≡ (returned (has (named u) t.users), w)
    unfolding is_user_exists ask
    is_user_exists_lem u a =
        rw (count_user_text u, ← has-count_of (named u) t.users)
          (first_column-row (count_user u) w t _ a h refl (omega (arith, k.user_key u)))

    pub is_user_in_room_lem :
        (n u : Bytes)
        → IsPlain n
        → IsPlain u
        → is_user_in_room P n u w ≡ (returned (has (member_is n u) t.members), w)
    unfolding is_user_in_room ask
    is_user_in_room_lem n u a b =
        rw (count_member_text n u, ← has-count_of (member_is n u) t.members)
          (first_column-row (count_member n u) w t _ (a, b) h refl
            (omega (arith, k.member_key n u)))

    pub is_room_exists_lem :
        (n : Bytes) → IsPlain n → is_room_exists P n w ≡ (returned (has (room_named n) t.rooms), w)
    unfolding is_room_exists ask
    is_room_exists_lem n a =
        rw (count_room_text n, ← has-count_of (room_named n) t.rooms)
          (first_column-row (count_room n) w t _ a h refl (omega (arith, k.room_key n)))

    online-row :
        (u : Bytes) (r : UserRow)
        → keep (named u) t.users ≡ r ∷ []
        → ask (online_of u) t ≡ count_row (bit r.is_online) ∷ []
    unfolding ask
    online-row u r e = ap (map (λ x. count_row (bit x.is_online))) e

    -- Under the same conditions, `isUserOnline` is true exactly when the row with this name is
    -- marked online; it changes nothing.
    pub is_user_online_lem :
        (u : Bytes)
        → IsPlain u
        → is_user_online P u w ≡ (returned (has (λ r. named u r && r.is_online) t.users), w)
    unfolding is_user_online
    is_user_online_lem u a =
        rw (online_of_text u)
          (elim (keep_cases (named u) (λ r. r.is_online) t.users (k.user_key u)) [
            | inl (e, f) ↦ rw f (no_row-positive (online_of u) w t a h (unfold ask in rw e))
            | inr (r, e, f) ↦
                rw (f, ← bit-positive r.is_online)
                  (first_column-row (online_of u) w t (bit r.is_online) a h (online-row u r e)
                    (bit-small r.is_online))
          ])
