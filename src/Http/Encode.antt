-- ===== src/Http/Encode.antt =====
-- What a client sends for a query string, and that `urlDecode` and `parseQueryParams`
-- (src/http/http_request.cpp) read it back.
use chatroom_server.Prelude.{
  ℕ, ◌+◌, ◌/◌, ◌%◌, ◌<◌, ◌≡◌, ◌++◌, ◌∙◌, ap, ap₂, some, refl, Bool, true, ◌||◌, Bytes, Lacks,
  cons-Lacks, append-Lacks, Bool-cases, inl, inr, lacks, All, List, [], ◌∷◌, if◌then◌else◌, ltb,
  ◌==◌, ◌&&◌, not, ◌≢◌, arith, split_on, split_on-append, split_on-last,
}
use chatroom_server.Table.{insert}
use chatroom_server.Http.Find.{find, find-append}
use chatroom_server.Http.Query.{
  between, is_hex, hex_value, scan, url_decode, store_param, store_params, parse_query_params,
}

abbrev pub is_alnum : ℕ → Bool
is_alnum c = between b'0' b'9' c || between b'a' b'z' c || between b'A' b'Z' c

abbrev pub hex_digit : ℕ → ℕ
hex_digit d = if ltb d 10 then b'0' + d else 55 + d

unfoldable pub encode_byte : ℕ → Bytes → Bytes
encode_byte c s = if is_alnum c then c ∷ s else b'%' ∷ hex_digit (c / 16) ∷ hex_digit (c % 16) ∷ s

-- Letters and digits stand for themselves, every other byte is %XX.
unfoldable pub url_encode : Bytes → Bytes
url_encode [] = []
url_encode (c ∷ s) = encode_byte c (url_encode s)

abbrev pub IsByte : ℕ → Type 0
IsByte c = c < 256

abbrev pub param_text : Bytes × Bytes → Bytes
param_text (key, value) = url_encode key ++ (b'=' ∷ url_encode value)

unfoldable pub query_string : Bytes × Bytes → List (Bytes × Bytes) → Bytes
query_string p [] = param_text p
query_string p (r ∷ rs) = param_text p ++ (b'&' ∷ query_string r rs)

abbrev pub IsParam : Bytes × Bytes → Type 0
IsParam (key, value) = All IsByte key × All IsByte value

-- Assigning a list of entries in order.
unfoldable pub insert_all : List (Bytes × Bytes) → List (Bytes × Bytes) → List (Bytes × Bytes)
insert_all [] m = m
insert_all ((k, v) ∷ entries) m = insert_all entries (insert k v m)

hex_digit-alnum : (d : ℕ) → d < 16 → is_alnum (hex_digit d) ≡ true
hex_digit-alnum d h = ground arith

hex_digit-hex : (d : ℕ) → d < 16 → is_hex (hex_digit d) ≡ true
hex_digit-hex d h = ground arith

hex_value-hex_digit : (d : ℕ) → d < 16 → hex_value (hex_digit d) ≡ d
hex_value-hex_digit d h = ground arith

-- `q` is neither a letter, nor a digit, nor '%'.
abbrev pub is_special : ℕ → Bool
is_special q = not (is_alnum q) && not (q == b'%')

alnum-not-special : (c q : ℕ) → is_alnum c ≡ true → is_special q ≡ true → c ≢ q
alnum-not-special c q h e p = ground arith

hex_digit-not-special : (d q : ℕ) → d < 16 → is_special q ≡ true → hex_digit d ≢ q
hex_digit-not-special d q lt = alnum-not-special (hex_digit d) q (hex_digit-alnum d lt)

url_encode-Lacks : (q : ℕ) (s : Bytes) → is_special q ≡ true → All IsByte s → Lacks q (url_encode s)
unfolding url_encode encode_byte lacks
url_encode-Lacks q [] h b = refl
url_encode-Lacks q (c ∷ s) h (lt, b) =
    let rest = url_encode-Lacks q s h b in
    elim (Bool-cases (is_alnum c)) [
      | inl e ↦ rw e (cons-Lacks q c (url_encode s) (alnum-not-special c q e h) rest)
      | inr e ↦ rw e (
          cons-Lacks q b'%' (hex_digit (c / 16) ∷ hex_digit (c % 16) ∷ url_encode s) (ground arith)
            (cons-Lacks q (hex_digit (c / 16)) (hex_digit (c % 16) ∷ url_encode s)
              (hex_digit-not-special (c / 16) q (omega arith) h)
              (cons-Lacks q (hex_digit (c % 16)) (url_encode s)
                (hex_digit-not-special (c % 16) q (omega arith) h) rest)))
    ]

param_text-Lacks :
    (q : ℕ) (p : Bytes × Bytes)
    → is_special q ≡ true
    → b'=' ≢ q
    → IsParam p
    → Lacks q (param_text p)
param_text-Lacks q (key, value) h ne (bk, bv) =
    append-Lacks q (url_encode key) (b'=' ∷ url_encode value) (url_encode-Lacks q key h bk)
      (cons-Lacks q b'=' (url_encode value) ne (url_encode-Lacks q value h bv))

pub query_string-Lacks :
    (q : ℕ) (p : Bytes × Bytes) (ps : List (Bytes × Bytes))
    → is_special q ≡ true
    → b'=' ≢ q
    → b'&' ≢ q
    → IsParam p
    → All IsParam ps
    → Lacks q (query_string p ps)
unfolding query_string
query_string-Lacks q p [] h e a hp hs = param_text-Lacks q p h e hp
query_string-Lacks q p (r ∷ rs) h e a hp hs =
    append-Lacks q (param_text p) (b'&' ∷ query_string r rs) (param_text-Lacks q p h e hp)
      (cons-Lacks q b'&' (query_string r rs) a (query_string-Lacks q r rs h e a hs.0 hs.1))

module _ (other_pair : ℕ → ℕ → ℕ) where
  scan-hex_digit : (c : ℕ) → c < 256 → scan other_pair (hex_digit (c / 16)) (hex_digit (c % 16)) ≡ c
  unfolding scan
  scan-hex_digit c h =
      rw
        (
          hex_digit-hex (c / 16) (omega arith),
          hex_digit-hex (c % 16) (omega arith),
          hex_value-hex_digit (c / 16) (omega arith),
          hex_value-hex_digit (c % 16) (omega arith),
        )
        (omega arith)

  url_decode-plain :
      (c : ℕ) (s : Bytes)
      → is_alnum c ≡ true
      → url_decode other_pair (c ∷ s) ≡ c ∷ url_decode other_pair s
  unfolding url_decode
  url_decode-plain c [] h = ground arith
  url_decode-plain c (x ∷ []) h = ground arith
  url_decode-plain c (x ∷ y ∷ s) h = ground arith

  url_decode-url_encode : (s : Bytes) → All IsByte s → url_decode other_pair (url_encode s) ≡ s
  unfolding url_decode url_encode encode_byte
  url_decode-url_encode [] b = refl
  url_decode-url_encode (c ∷ s) (lt, b) =
      let rest = url_decode-url_encode s b in
      elim (Bool-cases (is_alnum c)) [
        | inl e ↦ rw e (url_decode-plain c (url_encode s) e ∙ ap (c ∷◌) rest)
        | inr e ↦ rw (e, scan-hex_digit c lt, rest) refl
      ]

  store_param-found :
      (param key value : Bytes) (m : List (Bytes × Bytes))
      → find (b'=' ∷ []) param ≡ some (key, value)
      → store_param other_pair param m
        ≡ insert (url_decode other_pair key) (url_decode other_pair value) m
  unfolding store_param
  store_param-found param key value m e = rw (store_param, e) refl

  store_param-param_text :
      (p : Bytes × Bytes) (m : List (Bytes × Bytes))
      → IsParam p
      → store_param other_pair (param_text p) m ≡ insert p.0 p.1 m
  store_param-param_text (key, value) m (bk, bv) =
      store_param-found (param_text (key, value)) (url_encode key) (url_encode value) m (
        find-append b'=' [] (url_encode key) (url_encode value) (url_encode-Lacks b'=' key refl bk))
      ∙ ap₂ (λ k v. insert k v m) (url_decode-url_encode key bk) (url_decode-url_encode value bv)

  store_params-query_string :
      (p : Bytes × Bytes) (ps m : List (Bytes × Bytes))
      → IsParam p
      → All IsParam ps
      → store_params other_pair (split_on b'&' (query_string p ps)) m ≡ insert_all (p ∷ ps) m
  unfolding query_string store_params insert_all
  store_params-query_string p [] m h hs =
      rw (split_on-last b'&' (param_text p) (param_text-Lacks b'&' p refl (λ e. ground arith) h))
        (store_param-param_text p m h)
  store_params-query_string p (r ∷ rs) m h hs =
      let plain = param_text-Lacks b'&' p refl (λ e. ground arith) h in
      rw (split_on-append b'&' (param_text p) (query_string r rs) plain) (
        ap (store_params other_pair (split_on b'&' (query_string r rs)))
          (store_param-param_text p m h)
        ∙ store_params-query_string r rs (insert p.0 p.1 m) hs.0 hs.1)

  -- A query string that a client writes is read back: each value is found under its name.
  pub parse_query_params-query_string :
      (p : Bytes × Bytes) (ps : List (Bytes × Bytes))
      → IsParam p
      → All IsParam ps
      → parse_query_params other_pair (query_string p ps) ≡ insert_all (p ∷ ps) []
  unfolding parse_query_params
  parse_query_params-query_string p ps = store_params-query_string p ps []
