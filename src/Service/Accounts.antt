-- ===== src/Service/Accounts.antt =====
-- Registration, login and logout.
use chatroom_server.Prelude.{
  ◌≡◌, refl, subst, true, false, Bytes, bytes, List, [], ◌∷◌, some, if◌then◌else◌, arith,
  Bool-cases, inl, inr,
}
use chatroom_server.Sql.Tables.{Tables, UserRow, has, named, named_with}
use chatroom_server.Sql.Statement.{insert_user, set_online, set_active, apply}
use chatroom_server.Sql.Laws.{IsSqlite, IsPlain}
use chatroom_server.Sql.Keys.{UniqueKeys}
use chatroom_server.Platform.{Platform}
use chatroom_server.Platform.Monad.{World, returned}
use chatroom_server.Db.Users.{create_user, set_user_online_status, set_user_last_active_time}
use chatroom_server.Db.Writes.{
  Holds, execute_query-code_text, call, call-apply, execute_query-reads,
}
use chatroom_server.Db.Writes
use chatroom_server.Db.Reads.{validate_user_lem}
use chatroom_server.Epoll.Accounts.{register, login, logout}
use chatroom_server.Service.Fields.{HasTexts}

pub has-named :
    (u p : Bytes) (rs : List UserRow) → has (named_with u p) rs ≡ true → has (named u) rs ≡ true
unfolding has
has-named u p [] h = h
has-named u p (r ∷ rs) h = ground (arith, has-named u p rs)

module _ (P : Platform) where
  -- The tables after a login at the clock's present reading.
  abbrev pub logged_in : World P.sqlite.Db → Tables → Bytes → Tables
  logged_in w t u = (apply (set_active u (P.clock w.reads)) (apply (set_online u true) t).0).0

  abbrev pub login_info : Bytes → P.json.Json
  login_info u =
      P.json.object (
        (bytes "status", P.json.string (bytes "success"))
        ∷ (bytes "username", P.json.string u)
        ∷ [])

module _ (P : Platform) (L : IsSqlite P.sqlite) (w : World P.sqlite.Db) (t : Tables)
    (h : Holds P L w t) (k : UniqueKeys t) (body u p : Bytes) (plain_u : IsPlain u)
    (plain_p : IsPlain p) (fields : HasTexts P body (bytes "username") u (bytes "password") p) where
  created :
      ((create_user P u p w).0 ≡ returned (apply (insert_user u p) t).1)
      × Holds P L (create_user P u p w).1 (apply (insert_user u p) t).0
  unfolding call
  created = call-apply P L (Writes.create_user u p) w t (plain_u, plain_p) h

  -- On an open database with unique keys, and for a request with a user name and a password that
  -- hold no quote and no NUL byte: registration answers "Username already exists" if a row has
  -- this name and this password, "Internal server error" if one has the name with another
  -- password, and success otherwise; only then a row for the user is added.
  pub register_lem :
      ((register P body w).0
        ≡ returned (
            if has (named_with u p) t.users
            then bytes "{\"error\":\"Username already exists\"}"
            else if has (named u) t.users
            then bytes "{\"error\":\"Internal server error\"}"
            else bytes "{\"status\":\"success\"}"))
      × Holds P L (register P body w).1 (apply (insert_user u p) t).0
  unfolding register apply
  register_lem =
      let (doc, parsed, (has_u, get_u), (has_p, get_p)) = fields in
      let (answer, after) = created in
      let valid = validate_user_lem P L w t h k u p plain_u plain_p in
      rw (parsed, has_u, has_p, get_u, get_p, valid)
        (elim (Bool-cases (has (named_with u p) t.users)) [
          | inl known ↦ rw (known, has-named u p t.users known) (refl, h)
          | inr new ↦ elim (Bool-cases (has (named u) t.users)) [
            | inl taken ↦ (ground arith, (after.0, ground arith, ground arith))
            | inr free ↦ (ground arith, (after.0, ground arith, ground arith))
          ]
        ])

  marked : (set_user_online_status P u true w).1.reads ≡ w.reads
  unfolding set_user_online_status
  marked = execute_query-reads P L _ w w.db refl

  online :
      ((set_user_online_status P u true w).0 ≡ returned true)
      × Holds P L (set_user_online_status P u true w).1 (apply (set_online u true) t).0
  unfolding call apply
  online = call-apply P L (Writes.set_user_online_status u true) w t plain_u h

  touched :
      let v = (set_user_online_status P u true w).1 in
      ((set_user_last_active_time P u v).0 ≡ returned true)
      × Holds P L (set_user_last_active_time P u v).1 (logged_in P w t u)
  unfolding call apply
  touched =
      let v = (set_user_online_status P u true w).1 in
      let (done, holds) =
        call-apply P L (Writes.set_user_last_active_time u) v (apply (set_online u true) t).0
          plain_u online.1 in
      (
        done,
        subst
            (λ n.
              Holds P L (set_user_last_active_time P u v).1
                (apply (set_active u (P.clock n)) (apply (set_online u true) t).0).0)
            marked holds,
      )

  -- On an open database with unique keys, for a request whose name and password hold no quote and no
  -- NUL byte, and if the answer can be dumped: a login is let in exactly if a row has this name and
  -- this password; then the answer is the success object, the user is marked
  -- online and active at the clock's reading, and otherwise the tables stay as they are.
  pub login_lem :
      (text : Bytes)
      → P.json.dump (login_info P u) ≡ some text
      → ((login P body w).0
          ≡ returned (
              if has (named_with u p) t.users
              then text
              else bytes "{\"error\":\"Invalid username or password\"}"))
        × Holds P L
            (login P body w).1
            (if has (named_with u p) t.users then logged_in P w t u else t)
  unfolding login
  login_lem text dumped =
      let (doc, parsed, (has_u, get_u), (has_p, get_p)) = fields in
      let (answer, after) = touched in
      let valid = validate_user_lem P L w t h k u p plain_u plain_p in
      rw (parsed, has_u, has_p, get_u, get_p, valid)
        (elim (Bool-cases (has (named_with u p) t.users)) [
          | inl known ↦ rw known (
            ground (arith, online.0, answer),
            (
              after.0,
              ground (arith, online.0, answer, after.1),
              ground (arith, online.0, answer, after.2),
            ),
          )
          | inr unknown ↦ rw unknown (refl, h)
        ])

  offline :
      ((set_user_online_status P u false w).0 ≡ returned true)
      × Holds P L (set_user_online_status P u false w).1 (apply (set_online u false) t).0
  unfolding call apply
  offline = call-apply P L (Writes.set_user_online_status u false) w t plain_u h

  pub logout_lem :
      ((logout P body w).0 ≡ returned (bytes "{\"status\":\"success\"}"))
      × Holds P L (logout P body w).1 (apply (set_online u false) t).0
  unfolding logout
  logout_lem =
      let (doc, parsed, (has_u, get_u), (has_p, get_p)) = fields in
      let (answer, after) = offline in
      rw (parsed, has_u, get_u)
        (ground arith, (after.0, ground (arith, answer, after.1), ground (arith, answer, after.2)))
