-- ===== src/Tests/Services.antt =====
-- The theorems about the handlers at concrete requests.
use chatroom_server.Prelude.{◌≡◌, refl, true, false, Bytes, bytes, [], if◌then◌else◌}
use chatroom_server.Sql.Tables.{no_rows, has, named, named_with, room_named}
use chatroom_server.Sql.Statement.{insert_user, insert_room, insert_member, apply}
use chatroom_server.Sql.Engine.{engine_laws}
use chatroom_server.Platform.Monad.{returned}
use chatroom_server.Platform.Sample.{sample, running}
use chatroom_server.Http.Request.{HttpRequest}
use chatroom_server.Db.Users.{is_user_online}
use chatroom_server.Db.Writes.{Holds}
use chatroom_server.Epoll.Accounts.{register, login, logout}
use chatroom_server.Epoll.Rooms.{create_room, join_room}
use chatroom_server.Agreement
use chatroom_server.Agreement.{Route, expected_body, threaded, epoll, epoll_agree}
use chatroom_server.Service.Accounts.{register_lem, login_lem, login_info, logged_in}
use chatroom_server.Service.Session.{login-logout}
use chatroom_server.Service.Rooms.{join_room_lem, create_room_lem}
use chatroom_server.Tests.Fixture.{
  ann, world, filled, world-Holds, filled-UniqueKeys, ann-IsPlain, pw-IsPlain, hall-IsPlain, empty,
  empty-Holds, account_body, account_fields, room_body, room_fields, join_body, join_fields,
}

abbrev request : HttpRequest
request = record {
  method = bytes "POST";
  path = bytes "/register";
  body = account_body;
  headers = [];
  query_params = [];
}

epoll_agree_example :
    epoll sample Agreement.register account_body world
    ≡ expected_body Agreement.register (threaded sample Agreement.register request world)
epoll_agree_example = epoll_agree sample Agreement.register request world

register_lem_example :
    ((register sample account_body world).0
      ≡ returned (
          if has (named_with ann (bytes "pw")) filled.users
          then bytes "{\"error\":\"Username already exists\"}"
          else if has (named ann) filled.users
          then bytes "{\"error\":\"Internal server error\"}"
          else bytes "{\"status\":\"success\"}"))
    × Holds sample engine_laws
        (register sample account_body world).1
        (apply (insert_user ann (bytes "pw")) filled).0
register_lem_example =
    register_lem sample engine_laws world filled world-Holds filled-UniqueKeys account_body ann
      (bytes "pw") ann-IsPlain pw-IsPlain account_fields

abbrev greeting : Bytes
greeting = (login_info sample ann).written

login_lem_example :
    ((login sample account_body world).0
      ≡ returned (
          if has (named_with ann (bytes "pw")) filled.users
          then greeting
          else bytes "{\"error\":\"Invalid username or password\"}"))
    × Holds sample engine_laws (login sample account_body world).1 (
        if has (named_with ann (bytes "pw")) filled.users
        then logged_in sample world filled ann
        else filled)
login_lem_example =
    login_lem sample engine_laws world filled world-Holds filled-UniqueKeys account_body ann
      (bytes "pw") ann-IsPlain pw-IsPlain account_fields greeting refl

ann_known : has (named_with ann (bytes "pw")) filled.users ≡ true
unfolding has running
ann_known = refl

login-logout_example :
    let w' = (login sample account_body world).1 in
    let w'' = (logout sample account_body w').1 in
    ((login sample account_body world).0 ≡ returned greeting)
    × (is_user_online sample ann w' ≡ (returned true, w'))
    × ((logout sample account_body w').0 ≡ returned (bytes "{\"status\":\"success\"}"))
    × (is_user_online sample ann w'' ≡ (returned false, w''))
login-logout_example =
    login-logout sample engine_laws account_body ann (bytes "pw") ann-IsPlain pw-IsPlain
      account_fields greeting refl world filled world-Holds filled-UniqueKeys ann_known

-- The room is not in the table, and joining it succeeds.
join_room_lem_example :
    ((join_room sample join_body empty).0 ≡ returned (bytes "{\"status\":\"success\"}"))
    × Holds sample engine_laws
        (join_room sample join_body empty).1
        (apply (insert_member (bytes "hall") ann) no_rows).0
join_room_lem_example =
    join_room_lem sample engine_laws join_body empty no_rows (bytes "hall") ann empty-Holds
      hall-IsPlain ann-IsPlain join_fields

create_room_lem_example :
    ((create_room sample room_body world).0
      ≡ returned (
          if has (room_named (bytes "hall")) filled.rooms
          then bytes "{\"error\":\"Failed to create room\"}"
          else bytes "{\"status\":\"success\"}"))
    × Holds sample engine_laws (create_room sample room_body world).1 (
        if has (room_named (bytes "hall")) filled.rooms
        then filled
        else (apply
            (insert_member (bytes "hall") ann)
            (apply (insert_room (bytes "hall") ann) filled).0).0)
create_room_lem_example =
    create_room_lem sample engine_laws room_body world filled (bytes "hall") ann world-Holds
      hall-IsPlain ann-IsPlain room_fields
