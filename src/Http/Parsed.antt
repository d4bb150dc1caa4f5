-- ===== src/Http/Parsed.antt =====
-- `HttpRequest::parse` (src/http/http_request.cpp) reads a printed request back.
use chatroom_server.Prelude.{
  ℕ, ◌≡◌, ◌++◌, ◌∙◌, ap, refl, Bytes, bytes, Lacks, lacks, cons-Lacks, append-Lacks, All, List, [],
  ◌∷◌, none, some, arith,
}
use chatroom_server.Http.Find.{blank_line, find, find-append, find-none, lines}
use chatroom_server.Http.Query.{parse_query_params}
use chatroom_server.Http.Request.{
  HttpRequest, empty_request, store_headers, pop_return, with_path, with_fields, parse,
}
use chatroom_server.Http.Encode.{
  IsParam, query_string, insert_all, parse_query_params-query_string, query_string-Lacks,
}
use chatroom_server.Http.Printed.{
  field_lines, IsField, target, request_text, find_blank-field_lines, store_headers-field_lines,
}

version-Lacks : Lacks 13 (bytes "HTTP/1.1")
unfolding bytes lacks
version-Lacks = refl

module _ (other_pair : ℕ → ℕ → ℕ) where
  parse-found :
      (s method from_path full_path from_version version fields : Bytes)
      → find (b' ' ∷ []) s ≡ some (method, from_path)
      → find (b' ' ∷ []) from_path ≡ some (full_path, from_version)
      → find (13 ∷ 10 ∷ []) from_version ≡ some (version, fields)
      → parse other_pair s
        ≡ with_fields
            (with_path other_pair (record empty_request { method = method }) full_path)
            fields
  unfolding parse
  parse-found s method from_path full_path from_version version fields e e' e'' =
      rw (parse, e, e', e'') refl

  with_fields-found :
      (req : HttpRequest) (s head content : Bytes) (hs : List (Bytes × Bytes))
      → find blank_line s ≡ some (head, content)
      → store_headers (lines head) [] ≡ some hs
      → with_fields req s ≡ some (record req { headers = hs; body = pop_return content })
  unfolding with_fields
  with_fields-found req s head content hs e e' = rw (with_fields, e, e') refl

  with_path-none :
      (req : HttpRequest) (path : Bytes)
      → find (b'?' ∷ []) path ≡ none
      → with_path other_pair req path ≡ record req { path = path }
  unfolding with_path
  with_path-none req path e = rw (with_path, e) refl

  with_path-found :
      (req : HttpRequest) (full_path path text : Bytes)
      → find (b'?' ∷ []) full_path ≡ some (path, text)
      → with_path other_pair req full_path
        ≡ record req { path = path; query_params = parse_query_params other_pair text }
  unfolding with_path
  with_path-found req full_path path text e = rw (with_path, e) refl

  with_path-target :
      (req : HttpRequest) (path : Bytes) (params : List (Bytes × Bytes))
      → req.query_params ≡ []
      → Lacks b'?' path
      → All IsParam params
      → with_path other_pair req (target path params)
        ≡ record req { path = path; query_params = insert_all params [] }
  unfolding insert_all
  with_path-target req path [] e l hs =
      with_path-none req path (find-none b'?' [] path l)
      ∙ ap (λ qs. record req { path = path; query_params = qs }) e
  with_path-target req path (p ∷ ps) e l (h, hs) =
      with_path-found req (path ++ (b'?' ∷ query_string p ps)) path (query_string p ps)
        (find-append b'?' [] path (query_string p ps) l)
      ∙ ap (λ qs. record req { path = path; query_params = qs })
          (parse_query_params-query_string other_pair p ps h hs)

  target-Lacks :
      (path : Bytes) (params : List (Bytes × Bytes))
      → Lacks b' ' path
      → All IsParam params
      → Lacks b' ' (target path params)
  target-Lacks path [] l hs = l
  target-Lacks path (p ∷ ps) l (h, hs) = append-Lacks b' ' path (b'?' ∷ query_string p ps) l (
      cons-Lacks b' ' b'?' (query_string p ps) (λ e. ground arith)
        (query_string-Lacks b' ' p ps refl (λ e. ground arith) (λ e. ground arith) h hs))

  -- A request that a client prints from a method, a path, parameters, headers and a body is
  -- parsed back to them: parameters and headers as the entries that assigning them in order makes.
  -- The method has no space, the path no space and no '?', parameters are bytes, headers
  -- are as in `IsField`, and the body does not end with CR.
  pub parse-request_text :
      (method path : Bytes) (params : List (Bytes × Bytes)) (h : Bytes × Bytes)
      (hs : List (Bytes × Bytes)) (content : Bytes)
      → Lacks b' ' method
      → Lacks b' ' path
      → Lacks b'?' path
      → All IsParam params
      → IsField h
      → All IsField hs
      → pop_return content ≡ content
      → parse other_pair (request_text method path params h hs content)
        ≡ some (record {
          method = method;
          path = path;
          body = content;
          headers = insert_all (h ∷ hs) [];
          query_params = insert_all params [];
        })
  unfolding request_text
  parse-request_text method path params h hs content lm lp lq hp hh hhs hc =
      let after = field_lines h hs ++ (blank_line ++ content) in
      let version = bytes "HTTP/1.1" in
      parse-found (request_text method path params h hs content) method
        (target path params ++ (b' ' ∷ (version ++ (13 ∷ 10 ∷ after)))) (target path params)
        (version ++ (13 ∷ 10 ∷ after)) version after (find-append b' ' [] method _ lm)
        (find-append b' ' [] (target path params) _ (target-Lacks path params lp hp))
        (find-append 13 (10 ∷ []) version after version-Lacks)
      ∙ with_fields-found _ after (field_lines h hs) content (insert_all (h ∷ hs) [])
          (find_blank-field_lines h hs content hh hhs) (store_headers-field_lines h hs [] hh hhs)
      ∙ cc (with_path-target (record empty_request { method = method }) path params refl lq hp, hc)
