-- ===== src/Epoll/Messages.antt =====
-- The handlers of messages in `ChatroomServerEpoll::setupRoutes` (src/chatroom_server_epoll.cpp):
-- /send_message and /messages. Log lines are left out.
use chatroom_server.Prelude.{◌/◌, ℤ, pos, Bool, false, not, ◌||◌, Bytes, bytes, if◌then◌else◌}
use chatroom_server.Platform.{Platform}
use chatroom_server.Platform.Monad.{M, pure, catch, or_throw, ◌>>=◌, ◌>>◌}
use chatroom_server.Epoll.Accounts.{invalid_json}
use chatroom_server.Db.Connection.{now}
use chatroom_server.Db.Users.{check_and_update_inactive_users, set_user_last_active_time}
use chatroom_server.Db.Messages.{save_message, get_room_messages}

module _ (P : Platform) where
  open P.sqlite use {Db}
  open P.json use {Json, parse, contains, string_at, null_at, int_at, array, dump}

  unfoldable pub send_message : Bytes → M Db Bytes
  send_message body =
      catch
        (do
          doc ← or_throw (parse body)
          if not (contains doc (bytes "room"))
                || not (contains doc (bytes "username"))
                || not (contains doc (bytes "content"))
              then pure (bytes "{\"error\":\"Missing required fields\"}")
              else do
                room_name ← or_throw (string_at doc (bytes "room"))
                username ← or_throw (string_at doc (bytes "username"))
                content ← or_throw (string_at doc (bytes "content"))
                ticks ← now P
                let timestamp = ticks / 1_000_000
                check_and_update_inactive_users P username
                saved ← save_message P room_name username content timestamp
                if saved
                    then pure (bytes "{\"status\":\"success\"}")
                    else pure (bytes "{\"error\":\"Failed to save message\"}"))
        invalid_json

  -- `if (data.contains("username")) f(data["username"])`
  abbrev pub for_username : Json → (Bytes → M Db Bool) → M Db Bool
  for_username doc f =
      if contains doc (bytes "username")
      then (do username ← or_throw (string_at doc (bytes "username")); f username)
      else pure false

  -- `data["since"].is_null() ? 0 : data["since"].get<int64_t>()`
  abbrev pub since_field : Json → M Db ℤ
  since_field doc =
      if null_at doc (bytes "since") then pure (pos 0) else or_throw (int_at doc (bytes "since"))

  unfoldable pub messages : Bytes → M Db Bytes
  messages body =
      catch
        (do
          doc ← or_throw (parse body)
          for_username doc (check_and_update_inactive_users P)
          if not (contains doc (bytes "room")) || not (contains doc (bytes "since"))
              then pure (bytes "{\"error\":\"Missing required fields\"}")
              else do
                room_name ← or_throw (string_at doc (bytes "room"))
                since ← since_field doc
                found ← get_room_messages P room_name since
                for_username doc (set_user_last_active_time P)
                text ← or_throw (dump (array found))
                pure text)
        invalid_json
