-- ===== src/Tests/Agreement.antt =====
-- A client logs out, on each of the two servers.
use chatroom_server.Prelude.{ℕ, ◌<◌, refl, false, Bytes, bytes, length, [], arith}
use chatroom_server.Sql.Tables.{Tables}
use chatroom_server.Platform.Monad.{World}
use chatroom_server.Platform.Sample.{sample}
use chatroom_server.Http.Response.{HttpResponse, to_string}
use chatroom_server.Http.Server.{add_cors_headers}
use chatroom_server.Http.Printed.{request_text}
use chatroom_server.Db.Users.{set_user_online_status}
use chatroom_server.Threaded.Accounts as accounts
use chatroom_server.Agreement.{logout}
use chatroom_server.Service.Exchange.{Asks}
use chatroom_server.Tests.OverHttp.{asks, texts}
use chatroom_server.Agreement.Routing.{method_of, path_of}
use chatroom_server.Tests.Exchange.{host, host-IsField, host-IsLine}
use chatroom_server.Tests.Fixture.{ann, world}

abbrev pair : ℕ → ℕ → ℕ
pair a b = 0

abbrev body : Bytes
body = bytes "{\"username\":\"ann\"}"

logout_short : length (request_text (method_of logout) (path_of logout) [] host [] body) < 8192
unfolding texts
logout_short = omega arith

abbrev logout_request : Asks (asks 7 logout body) logout body
logout_request = record {
  header = host;
  headers = [];
  more = [];
  comes = refl;
  short = logout_short;
  is_field = host-IsField;
  are_fields = tt;
  is_line = host-IsLine;
  are_lines = tt;
  readable = refl;
  fine = refl;
}

abbrev response : HttpResponse
response = accounts.json_response (bytes "{\"status\":\"success\"}")

abbrev logged_out : World Tables
logged_out = (set_user_online_status sample ann false world).1

abbrev size : ℕ
size = length (to_string (add_cors_headers response))
