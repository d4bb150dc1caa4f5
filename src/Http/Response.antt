-- ===== src/Http/Response.antt =====
-- HttpResponse (src/http/http_response.cpp).
use chatroom_server.Prelude.{
  ℕ, ◌++◌, Bool, false, ◌&&◌, ◌||◌, Bytes, bytes, bytes_eq, decimal, length, List, [], ◌∷◌, Option,
  none, some, if◌then◌else◌, ◌==◌,
}
use chatroom_server.Table.{lookup, insert}

pub record HttpResponse : Type 0 where
  pub status_code : ℕ
  pub body : Bytes
  pub headers : List (Bytes × Bytes)

unfoldable pub set_status : HttpResponse → ℕ → HttpResponse
set_status r status = record r { status_code = status }

unfoldable pub set_header : HttpResponse → Bytes → Bytes → HttpResponse
set_header r key value = record r { headers = insert key value r.headers }

-- `!body.empty() && body.front() == open && body.back() == close`
abbrev front_is : ℕ → Bytes → Bool
front_is c [] = false
front_is c (x ∷ xs) = x == c

abbrev back_is : ℕ → Bytes → Bool
back_is c [] = false
back_is c (x ∷ []) = x == c
back_is c (x ∷ y ∷ xs) = back_is c (y ∷ xs)

unfoldable pub looks_like_json : Bytes → Bool
looks_like_json b = (front_is b'{' b && back_is b'}' b) || (front_is b'[' b && back_is b']' b)

abbrev default_type : Bytes → List (Bytes × Bytes) → Option Bytes → List (Bytes × Bytes)
default_type b hs (some old) = hs
default_type b hs none =
    insert (bytes "Content-Type")
      (if looks_like_json b then bytes "application/json" else bytes "text/plain") hs

unfoldable pub set_body : HttpResponse → Bytes → HttpResponse
set_body r b =
    let hs = insert (bytes "Content-Length") (decimal (length b)) r.headers in
    record r { body = b; headers = default_type b hs (lookup (bytes "Content-Type") hs) }

-- The constructor.
unfoldable pub http_response : ℕ → Bytes → HttpResponse
http_response status b = set_body (record { status_code = status; body = []; headers = [] }) b

unfoldable pub get_status_text : ℕ → Bytes
get_status_text code =
    if code == 200
    then bytes "OK"
    else if code == 201
    then bytes "Created"
    else if code == 302
    then bytes "Found"
    else if code == 400
    then bytes "Bad Request"
    else if code == 401
    then bytes "Unauthorized"
    else if code == 403
    then bytes "Forbidden"
    else if code == 404
    then bytes "Not Found"
    else if code == 500
    then bytes "Internal Server Error"
    else bytes "Unknown Status"

abbrev pub crlf : Bytes
crlf = 13 ∷ 10 ∷ []

-- The loop over the headers, which leaves out "Content-Length".
unfoldable pub header_lines : List (Bytes × Bytes) → Bytes
header_lines [] = []
header_lines ((k, v) ∷ hs) =
    if bytes_eq k (bytes "Content-Length")
    then header_lines hs
    else ((k ++ bytes ": ") ++ v) ++ (crlf ++ header_lines hs)

unfoldable pub to_string : HttpResponse → Bytes
to_string r =
    bytes "HTTP/1.1 "
    ++ decimal r.status_code
    ++ bytes " "
    ++ get_status_text r.status_code
    ++ crlf
    ++ bytes "Content-Length: "
    ++ decimal (length r.body)
    ++ crlf
    ++ header_lines r.headers
    ++ crlf
    ++ r.body
