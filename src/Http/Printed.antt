-- ===== src/Http/Printed.antt =====
-- What a client sends for a request, and how the loop of `HttpRequest::parse`
-- (src/http/http_request.cpp) reads its header lines.
use chatroom_server.Prelude.{
  ℕ, ◌≡◌, ◌++◌, ◌∙◌, ap₂, refl, false, ◌≢◌, Bytes, bytes, Lacks, lacks, cons-Lacks, append-Lacks,
  All, List, [], ◌∷◌, some, arith, append_assoc,
}
use chatroom_server.Table.{insert}
use chatroom_server.Http.Find.{
  blank_line, starts_with, find, find-append, lines, lines-append, lines-last,
}
use chatroom_server.Http.Request.{trim, store_header, store_headers}
use chatroom_server.Http.Encode.{query_string, insert_all}

abbrev pub field_line : Bytes × Bytes → Bytes
field_line (key, value) = key ++ (b':' ∷ b' ' ∷ value)

-- The header lines, between CR LF.
unfoldable pub field_lines : Bytes × Bytes → List (Bytes × Bytes) → Bytes
field_lines h [] = field_line h
field_lines h (k ∷ ks) = field_line h ++ (13 ∷ 10 ∷ field_lines k ks)

-- The key has no colon, neither text has a CR, and no blank stands at their ends.
pub record IsField (h : Bytes × Bytes) : Type 0 where
  pub key_colon : Lacks b':' h.0
  pub key_return : Lacks 13 h.0
  pub value_return : Lacks 13 h.1
  pub key_trimmed : trim h.0 ≡ h.0
  pub value_trimmed : trim h.1 ≡ h.1

abbrev pub target : Bytes → List (Bytes × Bytes) → Bytes
target path [] = path
target path (p ∷ ps) = path ++ (b'?' ∷ query_string p ps)

-- Method, path, parameters, at least one header, and the body.
unfoldable pub request_text :
    Bytes → Bytes → List (Bytes × Bytes) → Bytes × Bytes → List (Bytes × Bytes) → Bytes → Bytes
request_text method path params h hs content =
    method
    ++ (b' '
        ∷ (target path params
            ++ (b' '
                ∷ (bytes "HTTP/1.1"
                    ++ (13 ∷ 10 ∷ (field_lines h hs ++ (13 ∷ 10 ∷ 13 ∷ 10 ∷ content)))))))

field_line-Lacks : (h : Bytes × Bytes) → IsField h → Lacks 13 (field_line h)
field_line-Lacks (key, value) f = append-Lacks 13 key (b':' ∷ b' ' ∷ value) f.key_return (
    cons-Lacks 13 b':' (b' ' ∷ value) (ground arith)
      (cons-Lacks 13 b' ' value (ground arith) f.value_return))

-- The blank line is not found inside a line.
find_blank-skip :
    (x : ℕ) (w s a b : Bytes)
    → Lacks 13 (x ∷ w)
    → find blank_line s ≡ some (a, b)
    → starts_with (13 ∷ 10 ∷ []) s ≡ false
    → find blank_line ((x ∷ w) ++ (13 ∷ 10 ∷ s)) ≡ some ((x ∷ w) ++ (13 ∷ 10 ∷ a), b)
unfolding find starts_with lacks
find_blank-skip x [] s a b l e h = ground (arith, e, h)
find_blank-skip x (y ∷ w) s a b l e h = ground (arith, e, h, find_blank-skip y w s a b)

pub find_blank-line :
    (w s a b : Bytes)
    → w ≢ []
    → Lacks 13 w
    → find blank_line s ≡ some (a, b)
    → starts_with (13 ∷ 10 ∷ []) s ≡ false
    → find blank_line (w ++ (13 ∷ 10 ∷ s)) ≡ some (w ++ (13 ∷ 10 ∷ a), b)
find_blank-line [] s a b ne = elim (ne refl) [ ]
find_blank-line (x ∷ w) s a b ne = find_blank-skip x w s a b

pub starts_with-Lacks :
    (w s : Bytes) → w ≢ [] → Lacks 13 w → starts_with (13 ∷ 10 ∷ []) (w ++ s) ≡ false
unfolding starts_with lacks
starts_with-Lacks [] s ne l = elim (ne refl) [ ]
starts_with-Lacks (x ∷ w) s ne l = ground arith

pub field_line-ne-nil : (h : Bytes × Bytes) → field_line h ≢ []
field_line-ne-nil ([], value) e = ground arith
field_line-ne-nil (x ∷ key, value) e = ground arith

pub starts_with-field_lines :
    (h : Bytes × Bytes) (hs : List (Bytes × Bytes)) (s : Bytes)
    → IsField h
    → starts_with (13 ∷ 10 ∷ []) (field_lines h hs ++ s) ≡ false
unfolding field_lines
starts_with-field_lines h [] s f =
    starts_with-Lacks (field_line h) s (field_line-ne-nil h) (field_line-Lacks h f)
starts_with-field_lines h (k ∷ ks) s f =
    rw (append_assoc (field_line h) (13 ∷ 10 ∷ field_lines k ks) s) (
      starts_with-Lacks (field_line h) ((13 ∷ 10 ∷ field_lines k ks) ++ s) (field_line-ne-nil h)
        (field_line-Lacks h f))

pub find_blank-field_lines :
    (h : Bytes × Bytes) (hs : List (Bytes × Bytes)) (content : Bytes)
    → IsField h
    → All IsField hs
    → find blank_line (field_lines h hs ++ (blank_line ++ content))
      ≡ some (field_lines h hs, content)
unfolding field_lines
find_blank-field_lines h [] content f fs =
    find-append 13 (10 ∷ 13 ∷ 10 ∷ []) (field_line h) content (field_line-Lacks h f)
find_blank-field_lines h (k ∷ ks) content f (fk, fs) =
    rw (append_assoc (field_line h) (13 ∷ 10 ∷ field_lines k ks) (blank_line ++ content)) (
      find_blank-line (field_line h) (field_lines k ks ++ (blank_line ++ content))
        (field_lines k ks) content (field_line-ne-nil h) (field_line-Lacks h f)
        (find_blank-field_lines k ks content fk fs)
        (starts_with-field_lines k ks (blank_line ++ content) fk))

store_header-found :
    (line key value : Bytes) (m : List (Bytes × Bytes))
    → find (b':' ∷ []) line ≡ some (key, b' ' ∷ value)
    → store_header line m ≡ some (insert (trim key) (trim value) m)
unfolding store_header
store_header-found line key value m e = rw (store_header, e) refl

store_header-field_line :
    (h : Bytes × Bytes) (m : List (Bytes × Bytes))
    → IsField h
    → store_header (field_line h) m ≡ some (insert h.0 h.1 m)
store_header-field_line (key, value) m f =
    store_header-found (field_line (key, value)) key value m
      (find-append b':' [] key (b' ' ∷ value) f.key_colon)
    ∙ ap₂ (λ k v. some (insert k v m)) f.key_trimmed f.value_trimmed

store_headers-nil : (m : List (Bytes × Bytes)) → store_headers [] m ≡ some m
unfolding store_headers
store_headers-nil m = refl

store_headers-cons :
    (line : Bytes) (rest : List Bytes) (m m' : List (Bytes × Bytes))
    → store_header line m ≡ some m'
    → store_headers (line ∷ rest) m ≡ store_headers rest m'
unfolding store_headers
store_headers-cons line rest m m' e = rw (store_headers, e) refl

pub store_headers-field_lines :
    (h : Bytes × Bytes) (hs m : List (Bytes × Bytes))
    → IsField h
    → All IsField hs
    → store_headers (lines (field_lines h hs)) m ≡ some (insert_all (h ∷ hs) m)
unfolding field_lines insert_all
store_headers-field_lines h [] m f fs = rw (lines-last (field_line h) (field_line-Lacks h f)) (
    store_headers-cons (field_line h) [] m (insert h.0 h.1 m) (store_header-field_line h m f)
    ∙ store_headers-nil (insert h.0 h.1 m))
store_headers-field_lines h (k ∷ ks) m f (fk, fs) =
    rw (lines-append (field_line h) (field_lines k ks) (field_line-Lacks h f)) (
      store_headers-cons (field_line h) (lines (field_lines k ks)) m (insert h.0 h.1 m)
        (store_header-field_line h m f)
      ∙ store_headers-field_lines k ks (insert h.0 h.1 m) fk fs)
