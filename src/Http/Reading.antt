-- ===== src/Http/Reading.antt =====
-- How a client reads a response, and that it recovers what `HttpResponse::toString`
-- (src/http/http_response.cpp) was given.
use chatroom_server.Prelude.{
  ℕ, ◌≡◌, ◌≢◌, ◌++◌, ◌∙◌, ap, ap₂, refl, Bool-cases, inl, inr, Bytes, bytes, bytes_eq, Lacks, lacks,
  cons-Lacks, append-Lacks, All, List, [], ◌∷◌, Option, none, some, arith, append_assoc, decimal,
  read_digits, read_digits-decimal, length, take, take-all,
}
use chatroom_server.Table.{insert}
use chatroom_server.Http.Find.{starts_with, find, find-append, blank_line}
use chatroom_server.Http.Response.{HttpResponse, get_status_text, header_lines, crlf, to_string}

-- The status code, and as many bytes after the blank line as Content-Length says.
unfoldable pub after_length : ℕ → ℕ × Bytes → Option (ℕ × Bytes)
after_length status (n, s) = elim (find blank_line s) [
  | none ↦ none
  | some (fields, content) ↦ some (status, take n content)
]

unfoldable pub after_status : ℕ × Bytes → Option (ℕ × Bytes)
after_status (status, s) = elim (find (13 ∷ 10 ∷ []) s) [
  | none ↦ none
  | some (reason, fields) ↦ elim (find (b':' ∷ b' ' ∷ []) fields) [
    | none ↦ none
    | some (name, value) ↦ after_length status (read_digits 0 value)
  ]
]

unfoldable pub read_response : Bytes → Option (ℕ × Bytes)
read_response s = elim (find (b' ' ∷ []) s) [
  | none ↦ none
  | some (version, rest) ↦ after_status (read_digits 0 rest)
]

-- No CR in the name and the value of a header.
abbrev pub IsHeader : Bytes × Bytes → Type 0
IsHeader (key, value) = Lacks 13 key × Lacks 13 value

pub insert-IsHeader :
    (key value : Bytes) (hs : List (Bytes × Bytes))
    → Lacks 13 key
    → Lacks 13 value
    → All IsHeader hs
    → All IsHeader (insert key value hs)
unfolding insert
insert-IsHeader key value [] k v h = ((k, v), tt)
insert-IsHeader key value ((j, x) ∷ hs) k v (h, rest) = elim (Bool-cases (bytes_eq j key)) [
  | inl e ↦ rw e ((h.0, v), rest)
  | inr e ↦ rw e (h, insert-IsHeader key value hs k v rest)
]

get_status_text-Lacks : (code : ℕ) → Lacks 13 (get_status_text code)
unfolding get_status_text lacks bytes
get_status_text-Lacks code = ground arith

-- The text with its parts nested to the right.
abbrev after_header : HttpResponse → Bytes
after_header r = 13 ∷ 10 ∷ (header_lines r.headers ++ (13 ∷ 10 ∷ r.body))

abbrev after_code : HttpResponse → Bytes
after_code r =
    b' '
    ∷ (get_status_text r.status_code
        ++ (13
            ∷ 10
            ∷ (bytes "Content-Length"
                ++ (b':' ∷ b' ' ∷ (decimal (length r.body) ++ after_header r)))))

to_string-parts :
    (r : HttpResponse)
    → to_string r ≡ bytes "HTTP/1.1" ++ (b' ' ∷ (decimal r.status_code ++ after_code r))
unfolding to_string bytes
to_string-parts r = simp append_assoc refl

find_blank-word :
    (w s a b : Bytes)
    → Lacks 13 w
    → find blank_line s ≡ some (a, b)
    → find blank_line (w ++ s) ≡ some (w ++ a, b)
unfolding find starts_with lacks
find_blank-word [] s a b l e = e
find_blank-word (x ∷ w) s a b l e = ground (arith, find_blank-word w s a b)

find_blank-return :
    (w s a b : Bytes)
    → w ≢ []
    → Lacks 13 w
    → find blank_line s ≡ some (a, b)
    → find blank_line (13 ∷ 10 ∷ (w ++ s)) ≡ some (13 ∷ 10 ∷ (w ++ a), b)
unfolding find starts_with lacks
find_blank-return [] s a b ne l e = elim (ne refl) [ ]
find_blank-return (x ∷ w) s a b ne l e = ground (arith, find_blank-word (x ∷ w) s a b)

header_line-ne-nil : (key value : Bytes) → (key ++ bytes ": ") ++ value ≢ []
unfolding bytes
header_line-ne-nil [] value e = ground arith
header_line-ne-nil (x ∷ key) value e = ground arith

header_line-Lacks :
    (key value : Bytes) → Lacks 13 key → Lacks 13 value → Lacks 13 ((key ++ bytes ": ") ++ value)
unfolding bytes lacks
header_line-Lacks key value k v =
    append-Lacks 13 (key ++ bytes ": ") value (append-Lacks 13 key (bytes ": ") k refl) v

-- The first blank line is the one that `toString` puts before the body.
find_blank-header_lines :
    (hs : List (Bytes × Bytes)) (content : Bytes)
    → All IsHeader hs
    → (a : Bytes) × (find blank_line (13 ∷ 10 ∷ (header_lines hs ++ (13 ∷ 10 ∷ content)))
        ≡ some (a, content))
unfolding header_lines lacks
find_blank-header_lines [] content h = ([], find-append 13 (10 ∷ 13 ∷ 10 ∷ []) [] content refl)
find_blank-header_lines ((key, value) ∷ hs) content ((k, v), h) =
    let (a, e) = find_blank-header_lines hs content h in
    let line = (key ++ bytes ": ") ++ value in
    elim (Bool-cases (bytes_eq key (bytes "Content-Length"))) [
      | inl skipped ↦ rw skipped (a, e)
      | inr kept ↦
          rw (kept, append_assoc line (crlf ++ header_lines hs) (13 ∷ 10 ∷ content))
            (
              13 ∷ 10 ∷ (line ++ a),
              find_blank-return line (13 ∷ 10 ∷ (header_lines hs ++ (13 ∷ 10 ∷ content))) a content
                  (header_line-ne-nil key value) (header_line-Lacks key value k v) e,
            )
    ]

read_response-found :
    (s version rest reason fields name value a content : Bytes) (status : ℕ) (after : Bytes) (n : ℕ)
    (left : Bytes)
    → find (b' ' ∷ []) s ≡ some (version, rest)
    → read_digits 0 rest ≡ (status, after)
    → find (13 ∷ 10 ∷ []) after ≡ some (reason, fields)
    → find (b':' ∷ b' ' ∷ []) fields ≡ some (name, value)
    → read_digits 0 value ≡ (n, left)
    → find blank_line left ≡ some (a, content)
    → read_response s ≡ some (status, take n content)
unfolding read_response after_status after_length
read_response-found s version rest reason fields name value a content status after n left e1 e2 e3
      e4 e5 e6 =
    rw (read_response, e1, e2, after_status, e3, e4, e5, after_length, e6)
      (ap₂ (λ p q. some (p.0, take q.0 content)) e2 e5)

prefix-Lacks : Lacks b' ' (bytes "HTTP/1.1") × Lacks b':' (bytes "Content-Length")
unfolding lacks bytes
prefix-Lacks = (refl, refl)

-- From the text of a response whose headers have no CR, the reader recovers the status code and
-- exactly the body, whatever the body is.
pub read_response-to_string :
    (r : HttpResponse)
    → All IsHeader r.headers
    → read_response (to_string r) ≡ some (r.status_code, r.body)
read_response-to_string r h =
    let (a, e) = find_blank-header_lines r.headers r.body h in
    let value = decimal (length r.body) ++ after_header r in
    let fields = bytes "Content-Length" ++ (b':' ∷ b' ' ∷ value) in
    ap read_response (to_string-parts r)
    ∙ read_response-found _ (bytes "HTTP/1.1") (decimal r.status_code ++ after_code r)
        (b' ' ∷ get_status_text r.status_code) fields (bytes "Content-Length") value a r.body
        r.status_code (after_code r) (length r.body) (after_header r)
        (find-append b' ' [] (bytes "HTTP/1.1") (decimal r.status_code ++ after_code r)
          prefix-Lacks.0)
        (read_digits-decimal r.status_code (after_code r) refl)
        (find-append 13 (10 ∷ []) (b' ' ∷ get_status_text r.status_code) fields (
          cons-Lacks 13 b' ' (get_status_text r.status_code) (λ e. ground arith)
            (get_status_text-Lacks r.status_code)))
        (find-append b':' (b' ' ∷ []) (bytes "Content-Length") value prefix-Lacks.1)
        (read_digits-decimal (length r.body) (after_header r) refl) e
    ∙ ap (λ b. some (r.status_code, b)) (take-all (length r.body) r.body (omega arith))
