-- ===== src/Epoll/Reading.antt =====
-- How a client reads a response, and that it recovers what `makeHttpResponse`
-- (src/chatroom_server_epoll.cpp) was given.
use chatroom_server.Prelude.{
  ℕ, ◌≡◌, ◌≢◌, ◌++◌, ◌∙◌, ap, ap₂, refl, sym, false, Bytes, bytes, bytes_eq, bytes_eq_refl, NoDigit,
  Lacks, lacks, append-Lacks, cons-Lacks, decimal, decimal-Lacks, read_digits, read_digits-decimal,
  length, take, take-all, List, [], ◌∷◌, Option, none, some, append_assoc, append-nil, arith,
  if◌then◌else◌,
}
use chatroom_server.Http.Find.{blank_line, find, find-append, lines, lines-append, lines-last}
use chatroom_server.Http.Printed.{find_blank-line, starts_with-Lacks}
use chatroom_server.Epoll.Http.{make_http_response}

-- A client's reader: the value of the first header with a name.
abbrev or_more : Option Bytes → Option Bytes → Option Bytes
or_more (some value) more = some value
or_more none more = more

abbrev value_if : Bytes → Option (Bytes × Bytes) → Option Bytes
value_if name none = none
value_if name (some (key, value)) = if bytes_eq key name then some value else none

unfoldable pub header_value : Bytes → List Bytes → Option Bytes
header_value name [] = none
header_value name (line ∷ rest) =
    or_more (value_if name (find (b':' ∷ b' ' ∷ []) line)) (header_value name rest)

-- The status code from the first line, and as many bytes as Content-Length says.
abbrev with_length : ℕ → Bytes → Option Bytes → Option (ℕ × Bytes)
with_length status content none = none
with_length status content (some value) = some (status, take (read_digits 0 value).0 content)

abbrev with_status : Bytes → List Bytes → Option (Bytes × Bytes) → Option (ℕ × Bytes)
with_status content rest none = none
with_status content rest (some (version, after)) =
    with_length (read_digits 0 after).0 content (header_value (bytes "Content-Length") rest)

abbrev pub read_lines : Bytes → List Bytes → Option (ℕ × Bytes)
read_lines content [] = none
read_lines content (line ∷ rest) = with_status content rest (find (b' ' ∷ []) line)

abbrev read_parts : Option (Bytes × Bytes) → Option (ℕ × Bytes)
read_parts none = none
read_parts (some (head, content)) = read_lines content (lines head)

unfoldable pub read_reply : Bytes → Option (ℕ × Bytes)
read_reply text = read_parts (find blank_line text)

-- The lines that the server writes before the body.
abbrev status_line : ℕ → Bytes
status_line status = bytes "HTTP/1.1" ++ (b' ' ∷ (decimal status ++ bytes " OK"))

abbrev type_line : Bytes → Bytes
type_line content_type = bytes "Content-Type" ++ (b':' ∷ b' ' ∷ content_type)

abbrev length_line : Bytes → Bytes
length_line body = bytes "Content-Length" ++ (b':' ∷ b' ' ∷ decimal (length body))

abbrev close_line : Bytes
close_line = bytes "Connection: close"

abbrev rows : ℕ → Bytes → Bytes → Bytes → Bytes
rows status content_type body last =
    status_line status
    ++ (13 ∷ 10 ∷ (type_line content_type ++ (13 ∷ 10 ∷ (length_line body ++ (13 ∷ 10 ∷ last)))))

make_http_response-rows :
    (body content_type : Bytes) (status : ℕ)
    → make_http_response body content_type status
      ≡ rows status content_type body (close_line ++ (blank_line ++ body))
unfolding make_http_response bytes
make_http_response-rows body content_type status = simp append_assoc refl

literals-Lacks :
    Lacks 13 (bytes "HTTP/1.1")
    × Lacks 13 (bytes " OK")
    × Lacks 13 (bytes "Content-Type")
    × Lacks 13 (bytes "Content-Length")
    × Lacks 13 close_line
    × Lacks b' ' (bytes "HTTP/1.1")
    × Lacks b':' (bytes "Content-Type")
    × Lacks b':' (bytes "Content-Length")
unfolding bytes lacks
literals-Lacks = (refl, refl, refl, refl, refl, refl, refl, refl)

status_line-Lacks : (status : ℕ) → Lacks 13 (status_line status)
status_line-Lacks status =
    let (version, ok, _, _, _, _, _, _) = literals-Lacks in
    append-Lacks 13 (bytes "HTTP/1.1") _ version (
      cons-Lacks 13 b' ' _ (λ e. ground arith)
        (append-Lacks 13 (decimal status) (bytes " OK") (decimal-Lacks 13 status refl) ok))

header-Lacks :
    (key value : Bytes) → Lacks 13 key → Lacks 13 value → Lacks 13 (key ++ (b':' ∷ b' ' ∷ value))
header-Lacks key value k v =
    append-Lacks 13 key (b':' ∷ b' ' ∷ value) k
      (cons-Lacks 13 b':' _ (λ e. ground arith) (cons-Lacks 13 b' ' value (λ e. ground arith) v))

names : bytes_eq (bytes "Content-Type") (bytes "Content-Length") ≡ false
unfolding bytes bytes_eq
names = refl

ok-NoDigit : NoDigit (bytes " OK")
unfolding bytes
ok-NoDigit = refl

header-ne-nil : (key value : Bytes) → key ++ (b':' ∷ value) ≢ []
header-ne-nil [] value e = ground arith
header-ne-nil (x ∷ key) value e = ground arith

ne-nil : (status : ℕ) → (status_line status ≢ []) × (close_line ≢ [])
unfolding bytes
ne-nil status = (λ e. ground arith, λ e. ground arith)

module _ (status : ℕ) (content_type body : Bytes) (h : Lacks 13 content_type) where
  lines-Lacks :
      Lacks 13 (status_line status)
      × Lacks 13 (type_line content_type)
      × Lacks 13 (length_line body)
      × Lacks 13 close_line
  lines-Lacks =
      let (_, _, kind, size, close, _, _, _) = literals-Lacks in
      (
        status_line-Lacks status,
        header-Lacks (bytes "Content-Type") content_type kind h,
        header-Lacks (bytes "Content-Length") (decimal (length body)) size
            (decimal-Lacks 13 (length body) refl),
        close,
      )

  find_blank-rows :
      find blank_line (rows status content_type body (close_line ++ (blank_line ++ body)))
      ≡ some (rows status content_type body close_line, body)
  find_blank-rows =
      let (l1, l2, l3, l4) = lines-Lacks in
      let (n1, n4) = ne-nil status in
      let n2 = header-ne-nil (bytes "Content-Type") (b' ' ∷ content_type) in
      let n3 = header-ne-nil (bytes "Content-Length") (b' ' ∷ decimal (length body)) in
      let last = close_line ++ (blank_line ++ body) in
      find_blank-line (status_line status) _ _ body n1 l1
        (find_blank-line (type_line content_type) _ _ body n2 l2
          (find_blank-line (length_line body) last close_line body n3 l3
            (find-append 13 (10 ∷ 13 ∷ 10 ∷ []) close_line body l4)
            (starts_with-Lacks close_line _ n4 l4))
          (starts_with-Lacks (length_line body) _ n3 l3))
        (starts_with-Lacks (type_line content_type) _ n2 l2)

  lines-rows :
      lines (rows status content_type body close_line)
      ≡ status_line status ∷ type_line content_type ∷ length_line body ∷ close_line ∷ []
  lines-rows =
      let (l1, l2, l3, l4) = lines-Lacks in
      lines-append (status_line status) _ l1
      ∙ ap (λ ls. status_line status ∷ ls)
          (lines-append (type_line content_type) _ l2
            ∙ ap (λ ls. type_line content_type ∷ ls)
                (lines-append (length_line body) close_line l3
                  ∙ ap (λ ls. length_line body ∷ ls) (lines-last close_line l4)))

  header_value-length :
      header_value
        (bytes "Content-Length")
        (type_line content_type ∷ length_line body ∷ close_line ∷ [])
      ≡ some (decimal (length body))
  unfolding header_value
  header_value-length =
      let (_, _, _, _, _, _, kind, size) = literals-Lacks in
      rw
        (
          find-append b':' (b' ' ∷ []) (bytes "Content-Type") content_type kind,
          find-append b':' (b' ' ∷ []) (bytes "Content-Length") (decimal (length body)) size,
          names,
          bytes_eq_refl (bytes "Content-Length"),
        )
        refl

  read_lines-rows :
      read_lines body
        (status_line status ∷ type_line content_type ∷ length_line body ∷ close_line ∷ [])
      ≡ some (status, body)
  read_lines-rows =
      let (_, _, _, _, _, version, _, _) = literals-Lacks in
      let size = read_digits-decimal (length body) [] tt in
      ap (with_status body _)
        (find-append b' ' [] (bytes "HTTP/1.1") (decimal status ++ bytes " OK") version)
      ∙ ap₂ (λ p v. with_length p.0 body v) (read_digits-decimal status (bytes " OK") ok-NoDigit)
          header_value-length
      ∙ ap (λ p. some (status, take p.0 body))
          (ap (read_digits 0) (sym (append-nil (decimal (length body)))) ∙ size)
      ∙ ap (λ b. some (status, b)) (take-all (length body) body (omega arith))

  -- From the text of a response whose content type has no CR, a client recovers the status code and
  -- exactly the body.
  pub read_reply-make_http_response :
      read_reply (make_http_response body content_type status) ≡ some (status, body)
  unfolding read_reply
  read_reply-make_http_response =
      ap read_reply (make_http_response-rows body content_type status)
      ∙ ap read_parts find_blank-rows
      ∙ ap (read_lines body) lines-rows
      ∙ read_lines-rows
