-- ===== src/Epoll/Lines.antt =====
-- How `parseHttpRequest` (src/chatroom_server_epoll.cpp) reads the words and the header lines of a
-- printed request.
use chatroom_server.Prelude.{
  ℕ, ◌≡◌, ◌≢◌, ◌++◌, ◌∙◌, ap, refl, sym, Bool, true, false, not, ◌&&◌, ◌||◌, ◌==◌, Bytes, bytes_eq,
  Lacks, lacks, cons-Lacks, append-Lacks, All, List, [], ◌∷◌, some, arith, append_assoc, append-nil,
  split_on, split_on-append, split_on-last,
}
use chatroom_server.Table.{insert}
use chatroom_server.Http.Find.{find, find-append}
use chatroom_server.Http.Encode.{insert_all}
use chatroom_server.Http.Printed.{field_line, field_lines, IsField}
use chatroom_server.Epoll.Http.{
  is_space, skip_spaces, read_word, word, erase_blanks, pop_return, read_header, read_headers,
}

-- A word: not empty, and without white space.
unfoldable pub spaceless : Bytes → Bool
spaceless [] = true
spaceless (x ∷ s) = not (is_space x) && spaceless s

abbrev pub IsWord : Bytes → Type 0
IsWord s = (s ≢ []) × (spaceless s ≡ true)

-- A header that stays on its line: no LF, and no blank before the value.
abbrev pub starts_blank : Bytes → Bool
starts_blank [] = false
starts_blank (x ∷ s) = (x == b' ') || (x == 9)

pub record IsLine (h : Bytes × Bytes) : Type 0 where
  pub key_feed : Lacks 10 h.0
  pub value_feed : Lacks 10 h.1
  pub value_blank : starts_blank h.1 ≡ false

pub spaceless-Lacks : (q : ℕ) (s : Bytes) → is_space q ≡ true → spaceless s ≡ true → Lacks q s
unfolding spaceless lacks
spaceless-Lacks q [] w h = refl
spaceless-Lacks q (x ∷ s) w h = ground (arith, spaceless-Lacks q s w)

skip_spaces-word : (s rest : Bytes) → IsWord s → skip_spaces (s ++ rest) ≡ s ++ rest
unfolding skip_spaces spaceless
skip_spaces-word [] rest (ne, h) = elim (ne refl) [ ]
skip_spaces-word (x ∷ s) rest (ne, h) = ground (arith, h)

read_word-word :
    (s rest : Bytes) → spaceless s ≡ true → read_word (s ++ (b' ' ∷ rest)) ≡ (s, b' ' ∷ rest)
unfolding read_word spaceless
read_word-word [] rest h = refl
read_word-word (x ∷ s) rest h = ground (arith, read_word-word s rest, h)

pub word-word : (s rest : Bytes) → IsWord s → word (s ++ (b' ' ∷ rest)) ≡ (s, b' ' ∷ rest)
word-word s rest h = ap read_word (skip_spaces-word s (b' ' ∷ rest) h) ∙ read_word-word s rest h.1

pub word-space : (s : Bytes) → word (b' ' ∷ s) ≡ word s
unfolding skip_spaces
word-space s = refl

erase_blanks-value :
    (s rest : Bytes)
    → starts_blank s ≡ false
    → starts_blank rest ≡ false
    → erase_blanks (s ++ rest) ≡ s ++ rest
unfolding erase_blanks
erase_blanks-value [] [] h r = refl
erase_blanks-value [] (y ∷ rest) h r = ground (arith, r)
erase_blanks-value (x ∷ s) rest h r = ground (arith, h)

pop_return-return : (s : Bytes) → Lacks 13 s → pop_return (s ++ 13 ∷ []) ≡ s
unfolding pop_return lacks
pop_return-return [] h = refl
pop_return-return (x ∷ []) h = refl
pop_return-return (x ∷ y ∷ s) h = ground (arith, pop_return-return (y ∷ s))

pop_return-Lacks : (s : Bytes) → Lacks 13 s → pop_return s ≡ s
unfolding pop_return lacks
pop_return-Lacks [] h = refl
pop_return-Lacks (x ∷ []) h = ground (arith, h)
pop_return-Lacks (x ∷ y ∷ s) h = ground (arith, pop_return-Lacks (y ∷ s))

erase_blanks-space : (s : Bytes) → erase_blanks (b' ' ∷ s) ≡ erase_blanks s
unfolding erase_blanks
erase_blanks-space s = refl

read_header-found :
    (line key value : Bytes) (m : List (Bytes × Bytes))
    → find (b':' ∷ []) line ≡ some (key, value)
    → read_header line m ≡ insert key (pop_return (erase_blanks value)) m
unfolding read_header
read_header-found line key value m e = rw (read_header, e) refl

-- A header line, with the CR that `getline` leaves.
read_header-return :
    (h : Bytes × Bytes) (m : List (Bytes × Bytes))
    → IsField h
    → IsLine h
    → read_header (field_line h ++ 13 ∷ []) m ≡ insert h.0 h.1 m
read_header-return (key, value) m f l =
    read_header-found (field_line (key, value) ++ 13 ∷ []) key (b' ' ∷ (value ++ 13 ∷ [])) m (
      ap (find (b':' ∷ [])) (append_assoc key (b':' ∷ b' ' ∷ value) (13 ∷ []))
      ∙ find-append b':' [] key (b' ' ∷ (value ++ 13 ∷ [])) f.key_colon)
    ∙ ap (λ v. insert key v m)
        (ap pop_return (
            erase_blanks-space (value ++ 13 ∷ [])
            ∙ erase_blanks-value value (13 ∷ []) l.value_blank refl)
          ∙ pop_return-return value f.value_return)

read_header-last :
    (h : Bytes × Bytes) (m : List (Bytes × Bytes))
    → IsField h
    → IsLine h
    → read_header (field_line h) m ≡ insert h.0 h.1 m
read_header-last (key, value) m f l =
    read_header-found (field_line (key, value)) key (b' ' ∷ value) m
      (find-append b':' [] key (b' ' ∷ value) f.key_colon)
    ∙ ap (λ v. insert key v m)
        (ap pop_return (
            erase_blanks-space value
            ∙ ap erase_blanks (sym (append-nil value))
            ∙ erase_blanks-value value [] l.value_blank refl
            ∙ append-nil value)
          ∙ pop_return-Lacks value f.value_return)

-- A header line is neither empty nor a CR.
field_line-kept :
    (h : Bytes × Bytes) → bytes_eq (field_line h) [] || bytes_eq (field_line h) (13 ∷ []) ≡ false
unfolding bytes_eq
field_line-kept ([], value) = ground arith
field_line-kept (x ∷ [], value) = ground arith
field_line-kept (x ∷ y ∷ key, value) = ground arith

field_line-return : (h : Bytes × Bytes) → field_line h ++ 13 ∷ [] ≡ field_line (h.0, h.1 ++ 13 ∷ [])
field_line-return (key, value) = append_assoc key (b':' ∷ b' ' ∷ value) (13 ∷ [])

read_headers-cons :
    (line : Bytes) (rest : List Bytes) (m : List (Bytes × Bytes))
    → bytes_eq line [] || bytes_eq line (13 ∷ []) ≡ false
    → read_headers (line ∷ rest) m ≡ read_headers rest (read_header line m)
unfolding read_headers
read_headers-cons line rest m e = rw (read_headers, e) refl

field_line-feed : (h : Bytes × Bytes) → IsLine h → Lacks 10 (field_line h)
field_line-feed (key, value) l = append-Lacks 10 key (b':' ∷ b' ' ∷ value) l.key_feed (
    cons-Lacks 10 b':' (b' ' ∷ value) (λ e. ground arith)
      (cons-Lacks 10 b' ' value (λ e. ground arith) l.value_feed))

return-feed : (s : Bytes) → Lacks 10 s → Lacks 10 (s ++ 13 ∷ [])
unfolding lacks
return-feed s h = append-Lacks 10 s (13 ∷ []) h (cons-Lacks 10 13 [] (λ e. ground arith) refl)

-- A line that ends with CR LF.
pub split_on-return :
    (s rest : Bytes)
    → Lacks 10 s
    → split_on 10 (s ++ (13 ∷ 10 ∷ rest)) ≡ (s ++ 13 ∷ []) ∷ split_on 10 rest
split_on-return s rest h =
    ap (split_on 10) (sym (append_assoc s (13 ∷ []) (10 ∷ rest)))
    ∙ split_on-append 10 (s ++ 13 ∷ []) rest (return-feed s h)

pub read_headers-field_lines :
    (h : Bytes × Bytes) (hs m : List (Bytes × Bytes))
    → IsField h
    → All IsField hs
    → IsLine h
    → All IsLine hs
    → read_headers (split_on 10 (field_lines h hs)) m ≡ insert_all (h ∷ hs) m
unfolding field_lines insert_all read_headers
read_headers-field_lines h [] m f fs l ls =
    ap (λ lines. read_headers lines m) (split_on-last 10 (field_line h) (field_line-feed h l))
    ∙ read_headers-cons (field_line h) [] m (field_line-kept h)
    ∙ read_header-last h m f l
read_headers-field_lines h (k ∷ ks) m f (fk, fs) l (lk, ls) =
    let kept =
      ap (λ s. bytes_eq s [] || bytes_eq s (13 ∷ [])) (field_line-return h)
      ∙ field_line-kept (h.0, h.1 ++ 13 ∷ []) in
    ap (λ lines. read_headers lines m)
      (split_on-return (field_line h) (field_lines k ks) (field_line-feed h l))
    ∙ read_headers-cons (field_line h ++ 13 ∷ []) (split_on 10 (field_lines k ks)) m kept
    ∙ ap (read_headers (split_on 10 (field_lines k ks))) (read_header-return h m f l)
    ∙ read_headers-field_lines k ks (insert h.0 h.1 m) fk fs lk ls
