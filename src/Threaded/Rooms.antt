-- ===== src/Threaded/Rooms.antt =====
-- The handlers of rooms in `ChatroomServer::setupRoutes` (src/chatroom_server.cpp): /create_room,
-- /join_room and /rooms. Log lines are left out.
use chatroom_server.Prelude.{not, ◌||◌, Bytes, bytes, List, [], ◌∷◌, map, if◌then◌else◌}
use chatroom_server.Platform.{Platform}
use chatroom_server.Platform.Monad.{M, pure, catch, or_throw, ◌>>=◌}
use chatroom_server.Http.Request.{HttpRequest}
use chatroom_server.Http.Response.{HttpResponse, http_response}
use chatroom_server.Threaded.Accounts.{json_response, invalid_json}
use chatroom_server.Db.Rooms.{
  create_room as insert_room, add_user_to_room, get_rooms, get_room_users,
}

module _ (P : Platform) where
  open P.sqlite use {Db}
  open P.json use {Json, parse, contains, string_at, string, array, object, dump}

  unfoldable pub create_room : HttpRequest → M Db HttpResponse
  create_room request =
      catch
        (do
          doc ← or_throw (parse request.body)
          if not (contains doc (bytes "name")) || not (contains doc (bytes "creator"))
              then pure (http_response 400 (bytes "{\"error\":\"Missing room name or creator\"}"))
              else do
                room_name ← or_throw (string_at doc (bytes "name"))
                creator ← or_throw (string_at doc (bytes "creator"))
                created ← insert_room P room_name creator
                let failed = http_response 500 (bytes "{\"error\":\"Failed to create room\"}")
                if created
                    then (do
                      added ← add_user_to_room P room_name creator
                      if added
                          then pure (json_response (bytes "{\"status\":\"success\"}"))
                          else pure failed)
                    else pure failed)
        invalid_json

  unfoldable pub join_room : HttpRequest → M Db HttpResponse
  join_room request =
      catch
        (do
          doc ← or_throw (parse request.body)
          if not (contains doc (bytes "room")) || not (contains doc (bytes "username"))
              then pure (http_response 400 (bytes "{\"error\":\"Missing room or username\"}"))
              else do
                room_name ← or_throw (string_at doc (bytes "room"))
                username ← or_throw (string_at doc (bytes "username"))
                added ← add_user_to_room P room_name username
                if added
                    then pure (json_response (bytes "{\"status\":\"success\"}"))
                    else pure (http_response 404 (bytes "{\"error\":\"Room not found\"}")))
        invalid_json

  -- The loop that lists the members of each room.
  unfoldable pub room_infos : List Bytes → M Db (List Json)
  room_infos [] = pure []
  room_infos (room ∷ rooms) = do
    members ← get_room_users P room
    rest ← room_infos rooms
    pure (
        object ((bytes "name", string room) ∷ (bytes "members", array (map string members)) ∷ [])
        ∷ rest)

  -- No `try` here: an exception of `dump` leaves the handler.
  unfoldable pub rooms : HttpRequest → M Db HttpResponse
  rooms request = do
    found ← get_rooms P
    infos ← room_infos found
    text ← or_throw (dump (array infos))
    pure (json_response text)
