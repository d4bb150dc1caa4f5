-- ===== src/Service/Session.antt =====
-- A user's way through registration, login and logout.
use chatroom_server.Prelude.{
  ℕ, ◌≡◌, refl, ap, ◌∙◌, Bool, true, false, ◌&&◌, Bytes, bytes, bytes_eq_refl, List, [], ◌∷◌, ◌++◌,
  some, if◌then◌else◌, arith,
}
use chatroom_server.Sql.Tables.{Tables, UserRow, has, named, named_with, set_where}
use chatroom_server.Sql.Statement.{insert_user, set_online, set_active, apply}
use chatroom_server.Sql.Laws.{IsSqlite, IsPlain}
use chatroom_server.Sql.Keys.{UniqueKeys, apply-UniqueKeys}
use chatroom_server.Platform.{Platform}
use chatroom_server.Platform.Monad.{World, returned}
use chatroom_server.Db.Users.{is_user_online}
use chatroom_server.Db.Writes.{Holds}
use chatroom_server.Db.Reads.{is_user_online_lem}
use chatroom_server.Epoll.Accounts.{register, login, logout}
use chatroom_server.Service.Accounts.{
  has-named, register_lem, login_lem, login_info, logged_in, logout_lem,
}
use chatroom_server.Service.Fields.{HasTexts}

module _ {ℓ} {A : Type ℓ} (q : A → Bool) where
  has-append_last : (xs : List A) (x : A) → q x ≡ true → has q (xs ++ x ∷ []) ≡ true
  unfolding has
  has-append_last [] x e = rw e
  has-append_last (y ∷ xs) x e = ground (arith, has-append_last xs x e)

  -- After an update of the rows that fit `p`, a row fits both tests exactly if `good` says so.
  has-set_where :
      (p : A → Bool) (f : A → A) (good : Bool)
      → ((x : A) → p x ≡ true → q (f x) ≡ good)
      → ((x : A) → p x ≡ false → q x ≡ false)
      → (xs : List A) → has q (set_where p f xs) ≡ has p xs && good
  unfolding has
  has-set_where p f good h k [] = refl
  has-set_where p f good h k (x ∷ xs) = ground (arith, h x, k x, has-set_where p f good h k xs)

  has-set_where_same :
      (p : A → Bool) (f : A → A)
      → ((x : A) → q (f x) ≡ q x)
      → (xs : List A) → has q (set_where p f xs) ≡ has q xs
  unfolding has
  has-set_where_same p f h [] = refl
  has-set_where_same p f h (x ∷ xs) = ground (arith, h x, has-set_where_same p f h xs)

-- After `UPDATE users SET is_online=b`, a user who is in the table is online exactly if `b`.
set_online-has :
    (u : Bytes) (b : Bool) (t : Tables)
    → has (named u) t.users ≡ true
    → has (λ r. named u r && r.is_online) (apply (set_online u b) t).0.users ≡ b
unfolding apply
set_online-has u b t e =
    has-set_where (λ r. named u r && r.is_online) (named u) (λ r. record r { is_online = b }) b
      (λ x p. rw p) (λ x p. rw p) t.users
    ∙ rw e

set_active-has :
    (u : Bytes) (n : ℕ) (t : Tables)
    → has (λ r. named u r && r.is_online) (apply (set_active u n) t).0.users
      ≡ has (λ r. named u r && r.is_online) t.users
unfolding apply
set_active-has u n t =
    has-set_where_same (λ r. named u r && r.is_online) (named u)
      (λ r. record r { last_active_time = n }) (λ x. refl) t.users

logged_in-has :
    (n : ℕ) (u : Bytes) (t : Tables)
    → has (named u) (apply (set_active u n) (apply (set_online u true) t).0).0.users
      ≡ has (named u) t.users
unfolding apply
logged_in-has n u t =
    has-set_where_same (named u) (named u) (λ r. record r { last_active_time = n }) (λ x. refl) _
    ∙ has-set_where_same (named u) (named u) (λ r. record r { is_online = true }) (λ x. refl)
        t.users

unnamed :
    (u p : Bytes) (rs : List UserRow) → has (named u) rs ≡ false → has (named_with u p) rs ≡ false
unfolding has
unnamed u p [] h = h
unnamed u p (r ∷ rs) h = ground (arith, unnamed u p rs)

insert_user-has :
    (u p : Bytes) (t : Tables)
    → has (named u) t.users ≡ false
    → has (named_with u p) (apply (insert_user u p) t).0.users ≡ true
unfolding apply
insert_user-has u p t free =
    rw free (has-append_last (named_with u p) t.users _ (simp bytes_eq_refl))

module _ (P : Platform) (L : IsSqlite P.sqlite) (body u p : Bytes) (plain_u : IsPlain u)
    (plain_p : IsPlain p) (fields : HasTexts P body (bytes "username") u (bytes "password") p)
    (text : Bytes) (dumped : P.json.dump (login_info P u) ≡ some text) where
  open P.sqlite use {Db}

  -- On an open database with unique keys, for a request whose user name and password hold no quote
  -- and no NUL byte and an answer that can be dumped: if a row has this name and this password, the
  -- login answers with the success object and `isUserOnline` is then true; the logout after it
  -- succeeds, and `isUserOnline` is then false.
  pub login-logout :
      (w : World Db) (t : Tables)
      → Holds P L w t
      → UniqueKeys t
      → has (named_with u p) t.users ≡ true
      → let w' = (login P body w).1 in
        let w'' = (logout P body w').1 in
        ((login P body w).0 ≡ returned text)
        × (is_user_online P u w' ≡ (returned true, w'))
        × ((logout P body w').0 ≡ returned (bytes "{\"status\":\"success\"}"))
        × (is_user_online P u w'' ≡ (returned false, w''))
  login-logout w t h k known =
      let (answer, holds) = login_lem P L w t h k body u p plain_u plain_p fields text dumped in
      let inside = logged_in P w t u in
      let w' = (login P body w).1 in
      let h' : Holds P L w' inside = rw known at holds in
      let k' : UniqueKeys inside = apply-UniqueKeys _ _ (apply-UniqueKeys _ _ k) in
      let (bye, h'') = logout_lem P L w' inside h' k' body u p plain_u plain_p fields in
      let k'' = apply-UniqueKeys (set_online u false) inside k' in
      let there = has-named u p t.users known in
      let online =
        set_active-has u (P.clock w.reads) (apply (set_online u true) t).0
        ∙ set_online-has u true t there in
      let w'' = (logout P body w').1 in
      (
        rw known at answer,
        is_user_online_lem P L w' inside h' k' u plain_u ∙ ap (λ b. (returned b, w')) online,
        bye,
        is_user_online_lem P L w'' _ h'' k'' u plain_u
            ∙ ap (λ b. (returned b, w''))
                (set_online-has u false inside (logged_in-has (P.clock w.reads) u t ∙ there)),
      )

  -- Under the same conditions, a user name that no row has can be registered, and the login that
  -- follows with the same name and password is let in.
  pub register-login :
      (w : World Db) (t : Tables)
      → Holds P L w t
      → UniqueKeys t
      → has (named u) t.users ≡ false
      → let w' = (register P body w).1 in
        ((register P body w).0 ≡ returned (bytes "{\"status\":\"success\"}"))
        × ((login P body w').0 ≡ returned text)
  register-login w t h k free =
      let (answer, h') = register_lem P L w t h k body u p plain_u plain_p fields in
      let w' = (register P body w).1 in
      let k' = apply-UniqueKeys (insert_user u p) t k in
      let (answer', h'') =
        login_lem P L w' (apply (insert_user u p) t).0 h' k' body u p plain_u plain_p fields text
          dumped in
      (
        answer ∙ ap returned (rw (unnamed u p t.users free, free)),
        answer'
            ∙ ap
                (λ b.
                  returned
                    (if b then text else bytes "{\"error\":\"Invalid username or password\"}"))
                (insert_user-has u p t free),
      )
