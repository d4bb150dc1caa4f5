-- ===== src/Epoll/Parsed.antt =====
-- `parseHttpRequest` (src/chatroom_server_epoll.cpp) reads a printed request back.
use chatroom_server.Prelude.{
  ℕ, ◌≡◌, ◌≢◌, ◌++◌, ◌∙◌, ap, ap₂, refl, sym, true, Bytes, bytes, bytes_eq, Lacks, lacks,
  cons-Lacks, append-Lacks, All, List, [], ◌∷◌, some, arith, append_assoc, append-nil, split_on,
}
use chatroom_server.Http.Find.{blank_line, find}
use chatroom_server.Http.Encode.{insert_all}
use chatroom_server.Http.Printed.{
  field_lines, IsField, target, request_text, find_blank-line, find_blank-field_lines,
  starts_with-field_lines,
}
use chatroom_server.Epoll.Http.{is_space, word, read_headers, parse_lines, parse_http_request}
use chatroom_server.Epoll.Lines.{
  IsWord, IsLine, spaceless-Lacks, word-word, word-space, split_on-return, read_headers-field_lines,
}

-- The request's first line.
abbrev pub request_line : Bytes → Bytes → Bytes
request_line method path = method ++ (b' ' ∷ (path ++ (b' ' ∷ bytes "HTTP/1.1")))

parse_http_request-found :
    (raw head content : Bytes)
    → find blank_line raw ≡ some (head, content)
    → head ≢ []
    → parse_http_request raw ≡ parse_lines content (split_on 10 head)
unfolding parse_http_request bytes_eq
parse_http_request-found raw [] content e ne = elim (ne refl) [ ]
parse_http_request-found raw (x ∷ head) content e ne = rw (parse_http_request, e) refl

parse_lines-words :
    (content : Bytes) (method path : Bytes) (rest : List Bytes)
    → IsWord method
    → IsWord path
    → parse_lines content ((request_line method path ++ 13 ∷ []) ∷ rest)
      ≡ some
          (record { method = method; path = path; headers = read_headers rest []; body = content })
unfolding parse_lines
parse_lines-words content method path rest wm wp =
    let second = path ++ (b' ' ∷ bytes "HTTP/1.1") in
    let e1 : word (request_line method path ++ 13 ∷ []) ≡ (method, b' ' ∷ (second ++ 13 ∷ [])) =
      ap word (append_assoc method (b' ' ∷ second) (13 ∷ []))
      ∙ word-word method (second ++ 13 ∷ []) wm in
    let e2 : word (b' ' ∷ (second ++ 13 ∷ [])) ≡ (path, b' ' ∷ (bytes "HTTP/1.1" ++ 13 ∷ [])) =
      word-space (second ++ 13 ∷ [])
      ∙ ap word (append_assoc path (b' ' ∷ bytes "HTTP/1.1") (13 ∷ []))
      ∙ word-word path (bytes "HTTP/1.1" ++ 13 ∷ []) wp in
    ap₂
      (λ m p.
        some (record { method = m; path = p; headers = read_headers rest []; body = content }))
      (ap (λ x. x.0) e1) (ap (λ x. (word x.1).0) e1 ∙ ap (λ x. x.0) e2)

version-Lacks : Lacks 13 (bytes "HTTP/1.1") × Lacks 10 (bytes "HTTP/1.1")
unfolding bytes lacks
version-Lacks = (refl, refl)

request_line-Lacks :
    (q : ℕ) (method path : Bytes)
    → is_space q ≡ true
    → q ≢ b' '
    → Lacks q (bytes "HTTP/1.1")
    → IsWord method
    → IsWord path
    → Lacks q (request_line method path)
request_line-Lacks q method path w ne v (_, m) (_, p) =
    append-Lacks q method _ (spaceless-Lacks q method w m) (
      cons-Lacks q b' ' _ (λ e. ne (sym e))
        (append-Lacks q path _ (spaceless-Lacks q path w p)
          (cons-Lacks q b' ' (bytes "HTTP/1.1") (λ e. ne (sym e)) v)))

request_line-ne-nil : (method path rest : Bytes) → request_line method path ++ rest ≢ []
request_line-ne-nil [] path rest e = ground arith
request_line-ne-nil (x ∷ method) path rest e = ground arith

-- The server parses a request that a client prints to its method, its target, the entries that
-- assigning its headers in order makes, and its body. The method and the target are not empty and
-- have no white space, and each header is as in `IsField` and stays on its line.
pub parse_http_request-request_text :
    (method path : Bytes) (params : List (Bytes × Bytes)) (h : Bytes × Bytes)
    (hs : List (Bytes × Bytes)) (content : Bytes)
    → IsWord method
    → IsWord (target path params)
    → IsField h
    → All IsField hs
    → IsLine h
    → All IsLine hs
    → parse_http_request (request_text method path params h hs content)
      ≡ some (record {
        method = method;
        path = target path params;
        headers = insert_all (h ∷ hs) [];
        body = content;
      })
unfolding request_text
parse_http_request-request_text method path params h hs content wm wp f fs l ls =
    let path = target path params in
    let line = request_line method path in
    let after = field_lines h hs ++ (blank_line ++ content) in
    let head = line ++ (13 ∷ 10 ∷ field_lines h hs) in
    let shape : line ++ (13 ∷ 10 ∷ after) ≡ request_text method path [] h hs content =
      append_assoc method (b' ' ∷ (path ++ (b' ' ∷ bytes "HTTP/1.1"))) (13 ∷ 10 ∷ after)
      ∙ ap (λ x. method ++ (b' ' ∷ x))
          (append_assoc path (b' ' ∷ bytes "HTTP/1.1") (13 ∷ 10 ∷ after)) in
    let found =
      ap (find blank_line) (sym shape)
      ∙ find_blank-line line after (field_lines h hs) content
          (λ e. request_line-ne-nil method path [] (append-nil line ∙ e))
          (request_line-Lacks 13 method path refl (λ e. ground arith) version-Lacks.0 wm wp)
          (find_blank-field_lines h hs content f fs)
          (starts_with-field_lines h hs (blank_line ++ content) f) in
    parse_http_request-found _ head content found
      (request_line-ne-nil method path (13 ∷ 10 ∷ field_lines h hs))
    ∙ ap (parse_lines content) (
        split_on-return line (field_lines h hs)
          (request_line-Lacks 10 method path refl (λ e. ground arith) version-Lacks.1 wm wp))
    ∙ parse_lines-words content method path (split_on 10 (field_lines h hs)) wm wp
    ∙ ap
        (λ headers.
          some (record { method = method; path = path; headers = headers; body = content }))
        (read_headers-field_lines h hs [] f fs l ls)
