-- ===== src/Threaded/Accounts.antt =====
-- The handlers of users in `ChatroomServer::setupRoutes` (src/chatroom_server.cpp): /register,
-- /login, /users and /logout. Log lines are left out.
use chatroom_server.Prelude.{true, false, not, ◌||◌, Bytes, bytes, [], ◌∷◌, map, if◌then◌else◌}
use chatroom_server.Platform.{Platform}
use chatroom_server.Platform.Monad.{M, pure, catch, or_throw, ◌>>=◌, ◌>>◌}
use chatroom_server.Http.Request.{HttpRequest}
use chatroom_server.Http.Response.{HttpResponse, http_response, set_header}
use chatroom_server.Db.Users.{
  User, create_user, validate_user, set_user_online_status, set_user_last_active_time,
  get_all_users,
}

-- A response with status 200 and the type of JSON.
unfoldable pub json_response : Bytes → HttpResponse
json_response b = set_header (http_response 200 b) (bytes "Content-Type") (bytes "application/json")

abbrev pub invalid_json : HttpResponse
invalid_json = http_response 400 (bytes "{\"error\":\"Invalid JSON\"}")

module _ (P : Platform) where
  open P.sqlite use {Db}
  open P.json use {Json, parse, contains, string_at, string, boolean, array, object, dump}

  unfoldable pub register : HttpRequest → M Db HttpResponse
  register request =
      catch
        (do
          doc ← or_throw (parse request.body)
          if not (contains doc (bytes "username")) || not (contains doc (bytes "password"))
              then pure (http_response 400 (bytes "{\"error\":\"Missing username or password\"}"))
              else do
                username ← or_throw (string_at doc (bytes "username"))
                password ← or_throw (string_at doc (bytes "password"))
                known ← validate_user P username password
                if known
                    then pure (http_response 400 (bytes "{\"error\":\"Username already exists\"}"))
                    else do
                      created ← create_user P username password
                      if created
                          then pure (json_response (bytes "{\"status\":\"success\"}"))
                          else pure
                              (http_response 500 (bytes "{\"error\":\"Internal server error\"}")))
        invalid_json

  unfoldable pub login : HttpRequest → M Db HttpResponse
  login request =
      catch
        (do
          doc ← or_throw (parse request.body)
          if not (contains doc (bytes "username")) || not (contains doc (bytes "password"))
              then pure (http_response 400 (bytes "{\"error\":\"Missing username or password\"}"))
              else do
                username ← or_throw (string_at doc (bytes "username"))
                password ← or_throw (string_at doc (bytes "password"))
                valid ← validate_user P username password
                if valid
                    then (do
                      set_user_online_status P username true
                      set_user_last_active_time P username
                      let response = object (
                          (bytes "status", string (bytes "success"))
                          ∷ (bytes "username", string username)
                          ∷ [])
                      text ← or_throw (dump response)
                      pure (json_response text))
                    else pure
                        (http_response 401 (bytes "{\"error\":\"Invalid username or password\"}")))
        invalid_json

  abbrev pub user_info : User → Json
  user_info user =
      object (
        (bytes "username", string user.user_name)
        ∷ (bytes "is_online", boolean user.is_online)
        ∷ [])

  unfoldable pub users : HttpRequest → M Db HttpResponse
  users request =
      catch
        (do
          found ← get_all_users P
          text ← or_throw (dump (array (map user_info found)))
          pure (json_response text))
        (http_response 500 (bytes "{\"error\":\"Internal server error\"}"))

  unfoldable pub logout : HttpRequest → M Db HttpResponse
  logout request =
      catch
        (do
          doc ← or_throw (parse request.body)
          if not (contains doc (bytes "username"))
              then pure (http_response 400 (bytes "{\"error\":\"Missing username\"}"))
              else do
                username ← or_throw (string_at doc (bytes "username"))
                done ← set_user_online_status P username false
                if done
                    then pure (json_response (bytes "{\"status\":\"success\"}"))
                    else pure (http_response 500 (bytes "{\"error\":\"Internal server error\"}")))
        invalid_json
