-- ===== src/Tests/Http.antt =====
-- Requests and responses at concrete values.
use chatroom_server.Prelude.{
  ℕ, ◌≡◌, refl, true, Bytes, bytes, bytes_eq, lacks, decimal, List, [], ◌∷◌, some, split_on, arith,
}
use chatroom_server.Platform.Monad.{returned}
use chatroom_server.Platform.Sample.{sample}
use chatroom_server.Sql.Tables.{Tables}
use chatroom_server.Table.{lookup, insert}
use chatroom_server.Http.Request.{HttpRequest, trim, erase_front, erase_back, pop_return, parse}
use chatroom_server.Http.Response.{
  HttpResponse, http_response, set_body, set_status, set_header, looks_like_json, get_status_text,
  header_lines, to_string,
}
use chatroom_server.Http.Server.{
  Handlers, RequestHandler, add_handler, find_handler, add_cors_headers, WriteResult, wrote,
  interrupted, Sending, Served, write_loop, received, handle_client,
}
use chatroom_server.Http.Encode.{IsParam, insert_all}
use chatroom_server.Http.Printed.{IsField, field_lines, request_text}
use chatroom_server.Http.Parsed.{parse-request_text}
use chatroom_server.Http.Reading.{read_response}
use chatroom_server.Http.Sending.{start, written, Possible, write_loop-start}
use chatroom_server.Http.Exchange.{handle_client-request_text}
use chatroom_server.Threaded.Static.{
  static_response, content_type_of, ends_with, requested_file_of, handle_static_file_request,
}
use chatroom_server.Threaded.Routes.{static_handler, setup_routes}
use chatroom_server.Tests.Fixture.{world}

abbrev pair : ℕ → ℕ → ℕ
pair a b = 0

abbrev host : Bytes × Bytes
host = (bytes "Host", bytes "chat")

host-IsField : IsField host
unfolding bytes lacks trim erase_front erase_back
host-IsField = record {
  key_colon = refl;
  key_return = refl;
  value_return = refl;
  key_trimmed = refl;
  value_trimmed = refl;
}

abbrev param : Bytes × Bytes
param = (bytes "q", bytes "a b")

q_bytes : IsParam param
unfolding bytes
q_bytes = ((omega arith, tt), (omega arith, (omega arith, (omega arith, tt))))

parse-request_text_example :
    parse pair (request_text (bytes "POST") (bytes "/x") (param ∷ []) host [] (bytes "hi"))
    ≡ some (record {
      method = bytes "POST";
      path = bytes "/x";
      body = bytes "hi";
      headers = insert_all (host ∷ []) [];
      query_params = insert_all (param ∷ []) [];
    })
unfolding bytes lacks pop_return
parse-request_text_example =
    parse-request_text pair (bytes "POST") (bytes "/x") (param ∷ []) host [] (bytes "hi") refl refl
      refl (q_bytes, tt) host-IsField tt refl

abbrev partial : List WriteResult
partial = wrote 2 ∷ interrupted ∷ wrote 1 ∷ []

write_loop-start_example :
    write_loop (bytes "abc") partial (start (bytes "abc"))
    ≡ some (record { sent = bytes "abc"; total_bytes_written = 3; remaining = 0 })
unfolding bytes Possible written
write_loop-start_example =
    write_loop-start (bytes "abc") partial 3 (omega arith, (omega arith, tt)) refl (omega arith)

abbrev cut_off : Sending
cut_off = record { sent = bytes "ab"; total_bytes_written = 2; remaining = 1 }

abbrev handlers : Handlers (RequestHandler Tables)
handlers = setup_routes sample (bytes "static")

abbrev page_request : HttpRequest
page_request = record {
  method = bytes "GET";
  path = bytes "/login.html";
  body = [];
  headers = insert_all (host ∷ []) [];
  query_params = [];
}

abbrev page : HttpResponse
page = handle_static_file_request sample (bytes "static") (bytes "/login.html")

page_run : Unit {0}
unfolding bytes bytes_eq lacks lookup insert decimal looks_like_json http_response set_body
    set_header set_status static_response content_type_of ends_with requested_file_of
    handle_static_file_request add_cors_headers add_handler find_handler setup_routes
    get_status_text header_lines to_string pop_return request_text field_lines Possible written
    split_on
page_run = tt

abbrev two_writes : List WriteResult
two_writes = wrote 20 ∷ interrupted ∷ wrote 175 ∷ []

-- The client asks for the login page, and the response goes out in two writes.
handle_client-request_text_example :
    (s : Served) × (handle_client pair handlers
        (received (request_text (bytes "GET") (bytes "/login.html") [] host [] []))
        two_writes
        world
      ≡ (returned (some s), world))
    × (read_response s.sending.sent ≡ some (200, bytes "<html>"))
    × (s.closed ≡ true)
unfolding page_run insert_all
handle_client-request_text_example =
    handle_client-request_text pair handlers page_request [] host []
      (static_handler sample (bytes "static")) page world world two_writes 195 refl refl refl refl
      refl tt host-IsField tt refl refl (omega arith) refl refl ((refl, refl), ((refl, refl), tt))
      (omega arith, (omega arith, tt)) refl (omega arith)
