-- ===== src/Http/Request.antt =====
-- HttpRequest (src/http/http_request.cpp). Positions in the request are the texts that stand before
-- and after them; `none` is the std::out_of_range of `substr`.
use chatroom_server.Prelude.{
  ℕ, Bool, ◌||◌, Bytes, List, [], ◌∷◌, Option, none, some, if◌then◌else◌, ◌==◌,
}
use chatroom_server.Table.{insert}
use chatroom_server.Http.Find.{find, lines}
use chatroom_server.Http.Query.{parse_query_params}

pub record HttpRequest : Type 0 where
  pub method : Bytes
  pub path : Bytes
  pub body : Bytes
  pub headers : List (Bytes × Bytes)
  pub query_params : List (Bytes × Bytes)

abbrev pub empty_request : HttpRequest
empty_request = record { method = []; path = []; body = []; headers = []; query_params = [] }

-- `key.erase(0, key.find_first_not_of(" \t"))` and `key.erase(key.find_last_not_of(" \t") + 1)`
abbrev pub is_blank : ℕ → Bool
is_blank c = (c == b' ') || (c == 9)

unfoldable pub erase_front : Bytes → Bytes
erase_front [] = []
erase_front (x ∷ s) = let rest = erase_front s in if is_blank x then rest else x ∷ s

abbrev pub before_blanks : ℕ → Bytes → Bytes
before_blanks x [] = if is_blank x then [] else x ∷ []
before_blanks x (y ∷ s) = x ∷ y ∷ s

unfoldable pub erase_back : Bytes → Bytes
erase_back [] = []
erase_back (x ∷ s) = before_blanks x (erase_back s)

unfoldable pub trim : Bytes → Bytes
trim s = erase_back (erase_front s)

-- `header_line.substr(colon_pos + 2)`, of the text after the colon.
abbrev pub skip_space : Bytes → Option Bytes
skip_space [] = none
skip_space (x ∷ value) = some value

-- One round of the loop over the header lines.
unfoldable pub store_header : Bytes → List (Bytes × Bytes) → Option (List (Bytes × Bytes))
store_header header_line headers = elim (find (b':' ∷ []) header_line) [
  | none ↦ some headers
  | some (key, after_colon) ↦ elim (skip_space after_colon) [
    | none ↦ none
    | some value ↦ some (insert (trim key) (trim value) headers)
  ]
]

-- The loop: the lines up to `headers_end`. Where they end with CR LF the code stops, and
-- here an empty last line stores nothing.
unfoldable pub store_headers : List Bytes → List (Bytes × Bytes) → Option (List (Bytes × Bytes))
store_headers [] headers = some headers
store_headers (line ∷ rest) headers = elim (store_header line headers) [
  | none ↦ none
  | some more ↦ store_headers rest more
]

-- `if (!req.body_.empty() && req.body_.back() == '\r') req.body_.pop_back();`
unfoldable pub pop_return : Bytes → Bytes
pop_return [] = []
pop_return (x ∷ []) = if x == 13 then [] else x ∷ []
pop_return (x ∷ y ∷ s) = x ∷ pop_return (y ∷ s)

-- From `headers_start` on.
unfoldable pub with_fields : HttpRequest → Bytes → Option HttpRequest
with_fields req fields = elim (find (13 ∷ 10 ∷ 13 ∷ 10 ∷ []) fields) [
  | none ↦ some req
  | some (head, content) ↦ elim (store_headers (lines head) []) [
    | none ↦ none
    | some headers ↦ some (record req { headers = headers; body = pop_return content })
  ]
]

module _ (other_pair : ℕ → ℕ → ℕ) where
  unfoldable pub with_path : HttpRequest → Bytes → HttpRequest
  with_path req full_path = elim (find (b'?' ∷ []) full_path) [
    | none ↦ record req { path = full_path }
    | some (path, query_string) ↦ record req {
      path = path;
      query_params = parse_query_params other_pair query_string;
    }
  ]

  unfoldable pub parse : Bytes → Option HttpRequest
  parse request_str = elim (find (b' ' ∷ []) request_str) [
    | none ↦ some empty_request
    | some (method, from_path) ↦ elim (find (b' ' ∷ []) from_path) [
      | none ↦ some (record empty_request { method = method })
      | some (full_path, from_version) ↦
          let req = with_path (record empty_request { method = method }) full_path in
          elim (find (13 ∷ 10 ∷ []) from_version) [
            | none ↦ some req
            | some (version, fields) ↦ with_fields req fields
          ]
    ]
  ]
