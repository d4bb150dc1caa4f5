-- ===== src/Sql/Keys.antt =====
-- The primary keys of the tables, and counting rows by a key.
use chatroom_server.Prelude.{
  ◌+◌, ◌≤◌, ◌≡◌, refl, Bool, true, false, not, Bytes, bytes_eq_iff, List, [], ◌∷◌, ◌++◌, arith,
  Bool-cases, inl, inr, pos, is_positive,
}
use chatroom_server.Sql.Tables.{
  Tables, UserRow, RoomRow, MemberRow, keep, count_of, has, named, room_named, member_is, set_where,
}
use chatroom_server.Sql.Statement.{
  Statement, insert_user, set_online, set_active, insert_room, delete_room, insert_member,
  delete_member, insert_message, apply,
}

module _ {ℓ} {A : Type ℓ} where
  pub count_of-append :
      (p : A → Bool) (xs ys : List A) → count_of p (xs ++ ys) ≡ count_of p xs + count_of p ys
  unfolding count_of
  count_of-append p [] ys = omega arith
  count_of-append p (x ∷ xs) ys = ground (arith, count_of-append p xs ys)

  pub count_of-eq-zero_of_has : (p : A → Bool) (xs : List A) → has p xs ≡ false → count_of p xs ≡ 0
  unfolding count_of has
  count_of-eq-zero_of_has p [] h = refl
  count_of-eq-zero_of_has p (x ∷ xs) h = ground (arith, count_of-eq-zero_of_has p xs)

  pub has-count_of : (p : A → Bool) (xs : List A) → is_positive (pos (count_of p xs)) ≡ has p xs
  unfolding count_of has
  has-count_of p [] = refl
  has-count_of p (x ∷ xs) = ground (arith, has-count_of p xs)

  pub count_of-keep-le : (p q : A → Bool) (xs : List A) → count_of p (keep q xs) ≤ count_of p xs
  unfolding count_of keep
  count_of-keep-le p q [] = omega arith
  count_of-keep-le p q (x ∷ xs) = ground (arith, count_of-keep-le p q xs)

  pub count_of-set_where :
      (p q : A → Bool) (f : A → A)
      → ((x : A) → p (f x) ≡ p x)
      → (xs : List A) → count_of p (set_where q f xs) ≡ count_of p xs
  unfolding count_of
  count_of-set_where p q f h [] = refl
  count_of-set_where p q f h (x ∷ xs) = ground (arith, h x, count_of-set_where p q f h xs)

  pub count_of_mono :
      (p q : A → Bool)
      → ((x : A) → p x ≡ true → q x ≡ true)
      → (xs : List A) → count_of p xs ≤ count_of q xs
  unfolding count_of
  count_of_mono p q h [] = omega arith
  count_of_mono p q h (x ∷ xs) = ground (arith, h x, count_of_mono p q h xs)

  -- A new row keeps a key unique if it fits only keys that no row has.
  count_of-insert-le :
      (p q : A → Bool) (x : A) (xs : List A)
      → (p x ≡ true → count_of p xs ≡ count_of q xs)
      → has q xs ≡ false
      → count_of p xs ≤ 1
      → count_of p (xs ++ x ∷ []) ≤ 1
  count_of-insert-le p q x xs same fresh h =
      unfold count_of in
      ground (arith, count_of-append p xs (x ∷ []), count_of-eq-zero_of_has q xs fresh)

-- No two rows of a table share its primary key.
pub record UniqueKeys (t : Tables) : Type 0 where
  pub user_key : (u : Bytes) → count_of (named u) t.users ≤ 1
  pub room_key : (n : Bytes) → count_of (room_named n) t.rooms ≤ 1
  pub member_key : (n u : Bytes) → count_of (member_is n u) t.members ≤ 1

insert_user-key :
    (u : Bytes) (r : UserRow) (rs : List UserRow)
    → has (named r.username) rs ≡ false
    → ((v : Bytes) → count_of (named v) rs ≤ 1)
    → count_of (named u) (rs ++ r ∷ []) ≤ 1
insert_user-key u r rs fresh h =
    count_of-insert-le (named u) (named r.username) r rs (λ e. rw ((bytes_eq_iff r.username u).0 e))
      fresh (h u)

insert_room-key :
    (n : Bytes) (r : RoomRow) (rs : List RoomRow)
    → has (room_named r.name) rs ≡ false
    → ((v : Bytes) → count_of (room_named v) rs ≤ 1)
    → count_of (room_named n) (rs ++ r ∷ []) ≤ 1
insert_room-key n r rs fresh h =
    count_of-insert-le (room_named n) (room_named r.name) r rs
      (λ e. rw ((bytes_eq_iff r.name n).0 e)) fresh (h n)

insert_member-key :
    (n u : Bytes) (r : MemberRow) (rs : List MemberRow)
    → has (member_is r.room_name r.username) rs ≡ false
    → ((m v : Bytes) → count_of (member_is m v) rs ≤ 1)
    → count_of (member_is n u) (rs ++ r ∷ []) ≤ 1
insert_member-key n u r rs fresh h =
    count_of-insert-le (member_is n u) (member_is r.room_name r.username) r rs
      (λ e. ground (arith, bytes_eq_iff r.room_name n, bytes_eq_iff r.username u)) fresh (h n u)

-- Every statement keeps the primary keys.
pub apply-UniqueKeys : (st : Statement) (t : Tables) → UniqueKeys t → UniqueKeys (apply st t).0
unfolding apply
apply-UniqueKeys (insert_user u p) t k = elim (Bool-cases (has (named u) t.users)) [
  | inl old ↦ rw old k
  | inr new ↦ rw new (record {
    user_key = λ v. insert_user-key v _ t.users new k.user_key;
    room_key = k.room_key;
    member_key = k.member_key;
  })
]
apply-UniqueKeys (set_online u online) t k = record {
  user_key = λ v.
      rw
        (count_of-set_where (named v) (named u) (λ r. record r { is_online = online }) (λ x. refl)
          t.users)
        (k.user_key v);
  room_key = k.room_key;
  member_key = k.member_key;
}
apply-UniqueKeys (set_active u now) t k = record {
  user_key = λ v.
      rw
        (count_of-set_where (named v) (named u) (λ r. record r { last_active_time = now })
          (λ x. refl) t.users)
        (k.user_key v);
  room_key = k.room_key;
  member_key = k.member_key;
}
apply-UniqueKeys (insert_room n c) t k = elim (Bool-cases (has (room_named n) t.rooms)) [
  | inl old ↦ rw old k
  | inr new ↦ rw new (record {
    user_key = k.user_key;
    room_key = λ v. insert_room-key v _ t.rooms new k.room_key;
    member_key = k.member_key;
  })
]
apply-UniqueKeys (delete_room n) t k = record {
  user_key = k.user_key;
  room_key = λ v.
      omega
        (arith, count_of-keep-le (room_named v) (λ r. not (room_named n r)) t.rooms, k.room_key v);
  member_key = k.member_key;
}
apply-UniqueKeys (insert_member n u) t k = elim (Bool-cases (has (member_is n u) t.members)) [
  | inl old ↦ rw old k
  | inr new ↦ rw new (record {
    user_key = k.user_key;
    room_key = k.room_key;
    member_key = λ m v. insert_member-key m v _ t.members new k.member_key;
  })
]
apply-UniqueKeys (delete_member n u) t k = record {
  user_key = k.user_key;
  room_key = k.room_key;
  member_key = λ m v. omega (
    arith,
    count_of-keep-le (member_is m v) (λ r. not (member_is n u r)) t.members,
    k.member_key m v,
  );
}
apply-UniqueKeys (insert_message n u m s) t k = record {
  user_key = k.user_key;
  room_key = k.room_key;
  member_key = k.member_key;
}
