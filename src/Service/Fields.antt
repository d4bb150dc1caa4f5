-- ===== src/Service/Fields.antt =====
-- The fields of a request's JSON body.
use chatroom_server.Prelude.{◌≡◌, true, Bytes, some}
use chatroom_server.Platform.{Platform}

module _ (P : Platform) where
  open P.json use {Json, parse, contains, string_at}

  -- The document has a text under this key.
  abbrev pub HasText : Json → Bytes → Bytes → Type 0
  HasText doc key value = (contains doc key ≡ true) × (string_at doc key ≡ some value)

  -- The body is a document with these two texts.
  abbrev pub HasTexts : Bytes → Bytes → Bytes → Bytes → Bytes → Type 0
  HasTexts body key value other_key other =
      (doc : Json) × (parse body ≡ some doc) × HasText doc key value × HasText doc other_key other
