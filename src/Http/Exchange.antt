-- ===== src/Http/Exchange.antt =====
-- One exchange of the thread pool's server: `HttpServer::handleClient` with a request that a client
-- prints (src/http/http_server.cpp).
use chatroom_server.Prelude.{
  ℕ, ◌≤◌, ◌≡◌, ◌∙◌, ap, refl, Bytes, bytes, Lacks, lacks, c_str, c_str_lem, All, List, [], ◌∷◌,
  length, take, take-all, some, true,
}
use chatroom_server.Platform.Monad.{World, returned}
use chatroom_server.Http.Request.{HttpRequest, pop_return, parse}
use chatroom_server.Http.Response.{HttpResponse, set_header, to_string}
use chatroom_server.Http.Server.{
  Handlers, RequestHandler, find_handler, add_cors_headers, respond, received, handle_client,
  WriteResult, Served, close_client, write_loop,
}
use chatroom_server.Http.Encode.{IsParam, insert_all}
use chatroom_server.Http.Printed.{IsField, request_text}
use chatroom_server.Http.Parsed.{parse-request_text}
use chatroom_server.Http.Reading.{IsHeader, insert-IsHeader, read_response, read_response-to_string}
use chatroom_server.Http.Sending.{Possible, written, start, write_loop-start}

add_cors_headers-IsHeader :
    (r : HttpResponse) → All IsHeader r.headers → All IsHeader (add_cors_headers r).headers
unfolding add_cors_headers set_header bytes lacks
add_cors_headers-IsHeader r h =
    let origin =
      insert-IsHeader (bytes "Access-Control-Allow-Origin") (bytes "*") r.headers refl refl h in
    let methods =
      insert-IsHeader (bytes "Access-Control-Allow-Methods") (bytes "GET, POST, OPTIONS")
        (set_header r (bytes "Access-Control-Allow-Origin") (bytes "*")).headers refl refl origin in
    insert-IsHeader (bytes "Access-Control-Allow-Headers") (bytes "Content-Type") _ refl refl
      methods

add_cors_headers-read :
    (r : HttpResponse)
    → All IsHeader r.headers
    → read_response (to_string (add_cors_headers r)) ≡ some (r.status_code, r.body)
unfolding add_cors_headers set_header
add_cors_headers-read r h =
    read_response-to_string (add_cors_headers r) (add_cors_headers-IsHeader r h)

module _ (other_pair : ℕ → ℕ → ℕ) {Db : Type 0} where
  respond-found :
      (handlers : Handlers (RequestHandler Db)) (buffer : Bytes) (request : HttpRequest)
      (handler : RequestHandler Db) (response : HttpResponse) (w w' : World Db)
      → parse other_pair (c_str buffer) ≡ some request
      → find_handler handlers request.method request.path ≡ some handler
      → handler request w ≡ (returned response, w')
      → respond other_pair handlers buffer w
        ≡ (returned (to_string (add_cors_headers response)), w')
  unfolding respond
  respond-found handlers buffer request handler response w w' e e' e'' =
      rw (respond, e, e', e'') refl

  handle_client-respond :
      (handlers : Handlers (RequestHandler Db)) (incoming buffer : Bytes)
      (results : List WriteResult) (w w' : World Db) (text : Bytes)
      → take 4095 incoming ≡ buffer
      → respond other_pair handlers buffer w ≡ (returned text, w')
      → handle_client other_pair handlers (received incoming) results w
        ≡ (returned (close_client (write_loop text results (start text))), w')
  unfolding handle_client
  handle_client-respond handlers incoming buffer results w w' text e e' =
      rw (handle_client, e, e') refl

  -- A client prints a request for which the server has a handler, and the calls of `write` take the
  -- whole response. Then the handler gets exactly that request, the connection is closed without an
  -- exception, and from the bytes that it has got the client reads the status code and the body of
  -- the handler's response. The request is as in `parse-request_text`, has no NUL byte and at most
  -- 4095 bytes, and no header of the response has a CR.
  pub handle_client-request_text :
      (handlers : Handlers (RequestHandler Db)) (request : HttpRequest)
      (params : List (Bytes × Bytes)) (h : Bytes × Bytes) (hs : List (Bytes × Bytes))
      (handler : RequestHandler Db) (response : HttpResponse) (w w' : World Db)
      (results : List WriteResult) (m : ℕ)
      → request.headers ≡ insert_all (h ∷ hs) []
      → request.query_params ≡ insert_all params []
      → Lacks b' ' request.method
      → Lacks b' ' request.path
      → Lacks b'?' request.path
      → All IsParam params
      → IsField h
      → All IsField hs
      → pop_return request.body ≡ request.body
      → Lacks 0 (request_text request.method request.path params h hs request.body)
      → length (request_text request.method request.path params h hs request.body) ≤ 4095
      → find_handler handlers request.method request.path ≡ some handler
      → handler request w ≡ (returned response, w')
      → All IsHeader response.headers
      → Possible results (length (to_string (add_cors_headers response)))
      → written results ≡ some m
      → length (to_string (add_cors_headers response)) ≤ m
      → (s : Served) × (handle_client other_pair handlers
            (received (request_text request.method request.path params h hs request.body))
            results
            w
          ≡ (returned (some s), w'))
        × (read_response s.sending.sent ≡ some (response.status_code, response.body))
        × (s.closed ≡ true)
  unfolding close_client
  handle_client-request_text handlers request params h hs handler response w w' results m eh ep lm
        lp lq hp hh hhs hc l0 short found answer headers possible takes enough =
      let text = request_text request.method request.path params h hs request.body in
      let parsed : parse other_pair (c_str text) ≡ some request =
        ap (parse other_pair) (c_str_lem text l0)
        ∙ parse-request_text other_pair request.method request.path params h hs request.body lm lp
            lq hp hh hhs hc
        ∙ cc (eh, ep) in
      let sent = to_string (add_cors_headers response) in
      (
        record {
          sending = record { sent = sent; total_bytes_written = length sent; remaining = 0 };
          closed = true;
        },
        handle_client-respond handlers text text results w w' sent (take-all 4095 text short)
              (respond-found handlers text request handler response w w' parsed found answer)
            ∙ ap (λ s. (returned (close_client s), w'))
                (write_loop-start sent results m possible takes enough),
        add_cors_headers-read response headers,
        refl,
      )
