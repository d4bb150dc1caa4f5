-- ===== src/Http/Server.antt =====
-- HttpServer (src/http/http_server.cpp): the table of handlers and the service of one connection.
-- Log lines are left out. `other_pair` is that of Http/Query.
use chatroom_server.Prelude.{
  ℕ, ◌+◌, ◌-◌, ◌++◌, Bool, true, Bytes, bytes, c_str, drop, take, length, ltb, if◌then◌else◌, List,
  [], ◌∷◌, Option, none, some,
}
use chatroom_server.Platform.Monad.{M, pure, or_throw, ◌>>=◌}
use chatroom_server.Table.{lookup, insert}
use chatroom_server.Http.Request.{HttpRequest, parse}
use chatroom_server.Http.Response.{HttpResponse, http_response, set_header, to_string}

-- `handlers_`: by method, then by path.
abbrev pub Handlers {ℓ} : Type ℓ → Type ℓ
Handlers H = List (Bytes × List (Bytes × H))

module _ {ℓ} {H : Type ℓ} where
  -- `handlers_[method]`, where a missing entry is the empty map.
  abbrev pub paths_of : Option (List (Bytes × H)) → List (Bytes × H)
  paths_of none = []
  paths_of (some paths) = paths

  unfoldable pub add_handler : Bytes → Bytes → H → Handlers H → Handlers H
  add_handler method path handler handlers =
      insert method (insert path handler (paths_of (lookup method handlers))) handlers

  -- The path, else the wildcard.
  abbrev pub or_wildcard : List (Bytes × H) → Option H → Option H
  or_wildcard paths (some handler) = some handler
  or_wildcard paths none = lookup (bytes "/*") paths

  unfoldable pub find_handler : Handlers H → Bytes → Bytes → Option H
  find_handler handlers method path = elim (lookup method handlers) [
    | none ↦ none
    | some paths ↦ or_wildcard paths (lookup path paths)
  ]

-- What a call of `write` does: it takes some of the bytes, or fails with EINTR or another error.
pub data WriteResult : Type 0 where
  wrote : ℕ → WriteResult
  interrupted : WriteResult
  failed : WriteResult

-- The variables of the loop that sends, with the bytes that the client has got.
pub record Sending : Type 0 where
  pub sent : Bytes
  pub total_bytes_written : ℕ
  pub remaining : ℕ

-- `data + total_bytes_written`, `remaining` bytes of it, and `n` of those are taken.
unfoldable pub after_write : Bytes → ℕ → Sending → Sending
after_write text n s = record {
  sent = s.sent ++ take n (take s.remaining (drop s.total_bytes_written text));
  total_bytes_written = s.total_bytes_written + n;
  remaining = s.remaining - n;
}

-- The loop, over the results of its calls of `write`; `none` while it needs more of them.
unfoldable pub write_loop : Bytes → List WriteResult → Sending → Option Sending
write_loop text [] s = if ltb 0 s.remaining then none else some s
write_loop text (interrupted ∷ results) s =
    let again = write_loop text results s in if ltb 0 s.remaining then again else some s
write_loop text (failed ∷ results) s = some s
write_loop text (wrote n ∷ results) s =
    let again = write_loop text results (after_write text n s) in
    if ltb 0 s.remaining then again else some s

-- What a connection comes to: the bytes sent, and whether its descriptor was closed.
pub record Served : Type 0 where
  pub sending : Sending
  pub closed : Bool

-- `close(client_fd)`, after the loop.
unfoldable pub close_client : Option Sending → Option Served
close_client none = none
close_client (some s) = some (record { sending = s; closed = true })

unfoldable pub not_found : HttpResponse
not_found = http_response 404 (bytes "{\"status\":\"error\",\"message\":\"Not found\"}")

unfoldable pub add_cors_headers : HttpResponse → HttpResponse
add_cors_headers response =
    set_header
      (set_header (set_header response (bytes "Access-Control-Allow-Origin") (bytes "*"))
        (bytes "Access-Control-Allow-Methods") (bytes "GET, POST, OPTIONS"))
      (bytes "Access-Control-Allow-Headers") (bytes "Content-Type")

-- What `read` finds: bytes that have come, or the end of the input or an error.
pub data ReadResult : Type 0 where
  received : Bytes → ReadResult
  nothing : ReadResult

abbrev pub RequestHandler : Type 0 → Type 0
RequestHandler Db = HttpRequest → M Db HttpResponse

module _ (other_pair : ℕ → ℕ → ℕ) {Db : Type 0} where
  abbrev call : Option (RequestHandler Db) → HttpRequest → M Db HttpResponse
  call none request = pure not_found
  call (some handler) request = handler request

  -- From the buffer to the text of the response.
  unfoldable pub respond : Handlers (RequestHandler Db) → Bytes → M Db Bytes
  respond handlers buffer = do
    request ← or_throw (parse other_pair (c_str buffer))
    response ← call (find_handler handlers request.method request.path) request
    pure (to_string (add_cors_headers response))

  -- `read` puts at most `sizeof(buffer) - 1` bytes into the buffer. After an exception the
  -- connection stays open.
  unfoldable pub handle_client :
      Handlers (RequestHandler Db) → ReadResult → List WriteResult → M Db (Option Served)
  handle_client handlers nothing results =
      pure (close_client (some (record { sent = []; total_bytes_written = 0; remaining = 0 })))
  handle_client handlers (received incoming) results = do
    response_str ← respond handlers (take 4095 incoming)
    pure (
        close_client (
          write_loop response_str results
            (record { sent = []; total_bytes_written = 0; remaining = length response_str })))
