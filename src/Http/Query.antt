-- ===== src/Http/Query.antt =====
-- `HttpRequest::urlDecode` and `HttpRequest::parseQueryParams` (src/http/http_request.cpp).
-- `other_pair` is the byte that `sscanf` with "%x" leaves for a pair that is not two hexadecimal
-- digits: a blank, a sign or one digit is read by rules of its own, and where nothing is read the
-- variable has no value yet.
use chatroom_server.Prelude.{
  ℕ, ◌+◌, ◌-◌, ◌*◌, Bool, ◌&&◌, ◌||◌, Bytes, List, [], ◌∷◌, none, some, if◌then◌else◌, ◌==◌, leb,
  split_on,
}
use chatroom_server.Table.{insert}
use chatroom_server.Http.Find.{find}

abbrev pub between : ℕ → ℕ → ℕ → Bool
between a b c = leb a c && leb c b

abbrev pub is_hex : ℕ → Bool
is_hex c = between b'0' b'9' c || between b'a' b'f' c || between b'A' b'F' c

abbrev pub hex_value : ℕ → ℕ
hex_value c =
    if between b'0' b'9' c then c - b'0' else if between b'a' b'f' c then c - 87 else c - 55

abbrev pub plain : ℕ → ℕ
plain x = if x == b'+' then b' ' else x

module _ (other_pair : ℕ → ℕ → ℕ) where
  unfoldable pub scan : ℕ → ℕ → ℕ
  scan a b = if is_hex a && is_hex b then hex_value a * 16 + hex_value b else other_pair a b

  unfoldable pub url_decode : Bytes → Bytes
  url_decode [] = []
  url_decode (x ∷ []) = plain x ∷ []
  url_decode (x ∷ y ∷ []) = plain x ∷ url_decode (y ∷ [])
  url_decode (x ∷ y ∷ z ∷ s) =
      let after_pair = url_decode s in
      let after_byte = url_decode (y ∷ z ∷ s) in
      if x == b'%' then scan y z ∷ after_pair else plain x ∷ after_byte

  unfoldable pub store_param : Bytes → List (Bytes × Bytes) → List (Bytes × Bytes)
  store_param param params = elim (find (b'=' ∷ []) param) [
    | none ↦ params
    | some (key, value) ↦ insert (url_decode key) (url_decode value) params
  ]

  -- The loop over the pieces between '&'. The code reads the last one only if it is not empty; an
  -- empty piece has no '=' and stores nothing.
  unfoldable pub store_params : List Bytes → List (Bytes × Bytes) → List (Bytes × Bytes)
  store_params [] params = params
  store_params (param ∷ rest) params = store_params rest (store_param param params)

  unfoldable pub parse_query_params : Bytes → List (Bytes × Bytes)
  parse_query_params query_string = store_params (split_on b'&' query_string) []
