-- ===== src/Epoll/Accounts.antt =====
-- The handlers of users in `ChatroomServerEpoll::setupRoutes` (src/chatroom_server_epoll.cpp):
-- /register, /login, /users and /logout. Log lines are left out.
use chatroom_server.Prelude.{true, false, not, ◌||◌, Bytes, bytes, [], ◌∷◌, map, if◌then◌else◌}
use chatroom_server.Platform.{Platform}
use chatroom_server.Platform.Monad.{M, pure, catch, or_throw, ◌>>=◌, ◌>>◌}
use chatroom_server.Db.Users.{
  User, create_user, validate_user, set_user_online_status, set_user_last_active_time,
  get_all_users,
}

abbrev pub invalid_json : Bytes
invalid_json = bytes "{\"error\":\"Invalid JSON\"}"

module _ (P : Platform) where
  open P.sqlite use {Db}
  open P.json use {Json, parse, contains, string_at, string, boolean, array, object, dump}

  unfoldable pub register : Bytes → M Db Bytes
  register body =
      catch
        (do
          doc ← or_throw (parse body)
          if not (contains doc (bytes "username")) || not (contains doc (bytes "password"))
              then pure (bytes "{\"error\":\"Missing username or password\"}")
              else do
                username ← or_throw (string_at doc (bytes "username"))
                password ← or_throw (string_at doc (bytes "password"))
                known ← validate_user P username password
                if known then pure (bytes "{\"error\":\"Username already exists\"}") else do
                  created ← create_user P username password
                  if created
                      then pure (bytes "{\"status\":\"success\"}")
                      else pure (bytes "{\"error\":\"Internal server error\"}"))
        invalid_json

  unfoldable pub login : Bytes → M Db Bytes
  login body =
      catch
        (do
          doc ← or_throw (parse body)
          if not (contains doc (bytes "username")) || not (contains doc (bytes "password"))
              then pure (bytes "{\"error\":\"Missing username or password\"}")
              else do
                username ← or_throw (string_at doc (bytes "username"))
                password ← or_throw (string_at doc (bytes "password"))
                valid ← validate_user P username password
                if valid
                    then (do
                      set_user_online_status P username true
                      set_user_last_active_time P username
                      let response = object (
                          (bytes "status", string (bytes "success"))
                          ∷ (bytes "username", string username)
                          ∷ [])
                      text ← or_throw (dump response)
                      pure text)
                    else pure (bytes "{\"error\":\"Invalid username or password\"}"))
        invalid_json

  abbrev pub user_info : User → Json
  user_info user =
      object (
        (bytes "username", string user.user_name)
        ∷ (bytes "is_online", boolean user.is_online)
        ∷ [])

  -- No `try` here: an exception of `dump` leaves the handler.
  unfoldable pub users : Bytes → M Db Bytes
  users body = do
    found ← get_all_users P
    text ← or_throw (dump (array (map user_info found)))
    pure text

  unfoldable pub logout : Bytes → M Db Bytes
  logout body =
      catch
        (do
          doc ← or_throw (parse body)
          if not (contains doc (bytes "username"))
              then pure (bytes "{\"error\":\"Missing username\"}")
              else do
                username ← or_throw (string_at doc (bytes "username"))
                done ← set_user_online_status P username false
                if done
                    then pure (bytes "{\"status\":\"success\"}")
                    else pure (bytes "{\"error\":\"Internal server error\"}"))
        invalid_json
