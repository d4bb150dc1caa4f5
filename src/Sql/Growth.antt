-- ===== src/Sql/Growth.antt =====
-- No statement of src/db/database_manager.cpp takes a user away.
use chatroom_server.Prelude.{
  ℕ, ◌+◌, ◌≤◌, ◌≡◌, refl, Bool, true, false, Bytes, bytes_eq, Bool-cases, inl, inr, List, [], ◌∷◌,
  ◌++◌, if◌then◌else◌, arith,
}
use chatroom_server.Sql.Tables.{Tables, UserRow, count_of, has, named, room_named, member_is}
use chatroom_server.Sql.Statement.{
  Statement, insert_user, set_online, set_active, insert_room, delete_room, insert_member,
  delete_member, insert_message, apply,
}
use chatroom_server.Sql.Keys.{count_of-append, count_of-set_where}

-- How many rows the users have with a name.
abbrev pub rows_of : Bytes → Tables → ℕ
rows_of u t = count_of (named u) t.users

count_of-snoc :
    (u : Bytes) (r : UserRow) (rs : List UserRow)
    → count_of (named u) (rs ++ r ∷ []) ≡ (if named u r then 1 else 0) + count_of (named u) rs
count_of-snoc u r rs = unfold count_of in ground (arith, count_of-append (named u) rs (r ∷ []))

-- A user that is inserted is there.
pub insert_user-rows_of :
    (v p u : Bytes) (t : Tables)
    → rows_of u (apply (insert_user v p) t).0
      ≡ (if (apply (insert_user v p) t).1 then (if bytes_eq v u then 1 else 0) else 0) + rows_of u t
unfolding apply
insert_user-rows_of v p u t = elim (Bool-cases (has (named v) t.users)) [
  | inl old ↦ rw old (omega arith)
  | inr new ↦ rw new (count_of-snoc u _ t.users)
]

kept-rows_of :
    (u : Bytes) (t : Tables) (b : Bool) (x y : Tables × Bool)
    → rows_of u t ≤ rows_of u x.0
    → rows_of u t ≤ rows_of u y.0
    → rows_of u t ≤ rows_of u (if b then x else y).0
kept-rows_of u t true x y h k = h
kept-rows_of u t false x y h k = k

pub apply-rows_of-le :
    (st : Statement) (u : Bytes) (t : Tables) → rows_of u t ≤ rows_of u (apply st t).0
unfolding apply
apply-rows_of-le (insert_user v p) u t = omega (arith, insert_user-rows_of v p u t)
apply-rows_of-le (set_online v online) u t = omega (
  arith,
  count_of-set_where (named u) (named v) (λ r. record r { is_online = online }) (λ x. refl) t.users,
)
apply-rows_of-le (set_active v now) u t = omega (
  arith,
  count_of-set_where (named u) (named v) (λ r. record r { last_active_time = now }) (λ x. refl)
      t.users,
)
apply-rows_of-le (insert_room n c) u t =
    kept-rows_of u t (has (room_named n) t.rooms) (t, false) _ (omega arith) (omega arith)
apply-rows_of-le (delete_room n) u t = omega arith
apply-rows_of-le (insert_member n v) u t =
    kept-rows_of u t (has (member_is n v) t.members) (t, true) _ (omega arith) (omega arith)
apply-rows_of-le (delete_member n v) u t = omega arith
apply-rows_of-le (insert_message n v m s) u t = omega arith

-- An insertion that fails does so for a name that is there.
pub insert_user-taken :
    (v p : Bytes) (t : Tables)
    → (apply (insert_user v p) t).1 ≡ false
    → has (named v) t.users ≡ true
unfolding apply
insert_user-taken v p t e = ground (arith, e)
