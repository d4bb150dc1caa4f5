-- ===== src/Epoll/Http.antt =====
-- The functions on HTTP text of src/chatroom_server_epoll.cpp: `parseHttpRequest`,
-- `makeHttpResponse`, `ends_with` and `getContentType`.
use chatroom_server.Prelude.{
  ℕ, ◌++◌, Bool, ◌&&◌, ◌||◌, Bytes, bytes, bytes_eq, decimal, length, List, [], ◌∷◌, Option, none,
  some, if◌then◌else◌, ◌==◌, leb, split_on,
}
use mathlib.Core.List.{reverse}
use chatroom_server.Table.{insert}
use chatroom_server.Http.Find.{starts_with, find, blank_line}

-- `std::equal(ending.rbegin(), ending.rend(), value.rbegin())`, which needs the sizes.
unfoldable pub ends_with : Bytes → Bytes → Bool
ends_with value ending =
    leb (length ending) (length value) && starts_with (reverse ending) (reverse value)

unfoldable pub get_content_type : Bytes → Bytes
get_content_type path =
    if ends_with path (bytes ".html") || ends_with path (bytes ".htm")
    then bytes "text/html"
    else if ends_with path (bytes ".css")
    then bytes "text/css"
    else if ends_with path (bytes ".js")
    then bytes "application/javascript"
    else if ends_with path (bytes ".json")
    then bytes "application/json"
    else if ends_with path (bytes ".png")
    then bytes "image/png"
    else if ends_with path (bytes ".jpg") || ends_with path (bytes ".jpeg")
    then bytes "image/jpeg"
    else if ends_with path (bytes ".ico")
    then bytes "image/x-icon"
    else bytes "text/plain"

-- `stream >> word`: what stands after white space, up to the next white space, and the rest.
abbrev pub is_space : ℕ → Bool
is_space c = (c == b' ') || (leb 9 c && leb c 13)

unfoldable pub skip_spaces : Bytes → Bytes
skip_spaces [] = []
skip_spaces (x ∷ s) = let rest = skip_spaces s in if is_space x then rest else x ∷ s

abbrev pub with_first : ℕ → Bytes × Bytes → Bytes × Bytes
with_first x (w, rest) = (x ∷ w, rest)

unfoldable pub read_word : Bytes → Bytes × Bytes
read_word [] = ([], [])
read_word (x ∷ s) = let more = read_word s in if is_space x then ([], x ∷ s) else with_first x more

abbrev pub word : Bytes → Bytes × Bytes
word s = read_word (skip_spaces s)

-- `while (!value.empty() && (value[0] == ' ' || value[0] == '\t')) value.erase(0, 1);`
unfoldable pub erase_blanks : Bytes → Bytes
erase_blanks [] = []
erase_blanks (x ∷ s) = let rest = erase_blanks s in if (x == b' ') || (x == 9) then rest else x ∷ s

-- `if (!value.empty() && value.back() == '\r') value.pop_back();`
unfoldable pub pop_return : Bytes → Bytes
pop_return [] = []
pop_return (x ∷ []) = if x == 13 then [] else x ∷ []
pop_return (x ∷ y ∷ s) = x ∷ pop_return (y ∷ s)

-- One round of the loop over the header lines.
unfoldable pub read_header : Bytes → List (Bytes × Bytes) → List (Bytes × Bytes)
read_header line headers = elim (find (b':' ∷ []) line) [
  | none ↦ headers
  | some (key, value) ↦ insert key (pop_return (erase_blanks value)) headers
]

-- The loop, which stops at an empty line.
unfoldable pub read_headers : List Bytes → List (Bytes × Bytes) → List (Bytes × Bytes)
read_headers [] headers = headers
read_headers (line ∷ rest) headers =
    let more = read_headers rest (read_header line headers) in
    if bytes_eq line [] || bytes_eq line (13 ∷ []) then headers else more

pub record ParsedRequest : Type 0 where
  pub method : Bytes
  pub path : Bytes
  pub headers : List (Bytes × Bytes)
  pub body : Bytes

-- The lines of the text before the blank line, at LF. `getline` fails on an empty stream, and
-- gives no line after a last LF, where `split_on` gives an empty one, which ends the loop too.
unfoldable pub parse_lines : Bytes → List Bytes → Option ParsedRequest
parse_lines content [] = none
parse_lines content (line ∷ rest) =
    let (method, after) = word line in
    some (record {
      method = method;
      path = (word after).0;
      headers = read_headers rest [];
      body = content;
    })

unfoldable pub parse_http_request : Bytes → Option ParsedRequest
parse_http_request raw = elim (find blank_line raw) [
  | none ↦ none
  | some (head, content) ↦ if bytes_eq head [] then none else parse_lines content (split_on 10 head)
]

unfoldable pub make_http_response : Bytes → Bytes → ℕ → Bytes
make_http_response body content_type status =
    bytes "HTTP/1.1 "
    ++ decimal status
    ++ bytes " OK\r\n"
    ++ bytes "Content-Type: "
    ++ content_type
    ++ bytes "\r\n"
    ++ bytes "Content-Length: "
    ++ decimal (length body)
    ++ bytes "\r\n"
    ++ bytes "Connection: close\r\n\r\n"
    ++ body
