-- ===== src/Chat.antt =====
-- `User::toJson` and `User::fromJson` (src/chat/user.cpp), over what the JSON library documents of
-- objects.
use chatroom_server.Prelude.{
  ◌≡◌, refl, Bool, true, Bytes, bytes, bytes_eq, List, [], ◌∷◌, Option, none, some, if◌then◌else◌,
}
use chatroom_server.Table.{lookup}
use chatroom_server.Platform.{JsonLibrary}
use chatroom_server.Db.Users.{User}

-- `json{{k, v}, ...}` has the keys that were given and no others, and at each key the first value
-- given for it; a text and a truth value convert back to themselves.
pub record IsObject (J : JsonLibrary) : Type 0 where
  pub contains_eq :
      (members : List (Bytes × J.Json)) (key : Bytes) (value : J.Json)
      → lookup key members ≡ some value
      → J.contains (J.object members) key ≡ true
  pub string_eq :
      (members : List (Bytes × J.Json)) (key text : Bytes)
      → lookup key members ≡ some (J.string text)
      → J.string_at (J.object members) key ≡ some text
  pub bool_eq :
      (members : List (Bytes × J.Json)) (key : Bytes) (b : Bool)
      → lookup key members ≡ some (J.boolean b)
      → J.bool_at (J.object members) key ≡ some b

module _ (J : JsonLibrary) where
  open J use {Json, contains, string_at, bool_at, string, boolean, object}

  abbrev members_of : User → List (Bytes × Json)
  members_of u =
      (bytes "userName", string u.user_name)
      ∷ (bytes "password", string u.password)
      ∷ (bytes "isOnline", boolean u.is_online)
      ∷ []

  unfoldable pub to_json : User → Json
  to_json u = object (members_of u)

  -- `j.at(key).get<T>()`, which throws for a missing key and for another type.
  abbrev at {ℓ} : {A : Type ℓ} → Json → Bytes → Option A → Option A
  at j key value = if contains j key then value else none

  abbrev user_from : Option Bytes → Option Bytes → Option Bool → Option User
  user_from (some name) (some password) (some online) =
      some (record { user_name = name; password = password; is_online = online })
  user_from _ _ _ = none

  unfoldable pub from_json : Json → Option User
  from_json j =
      user_from (at j (bytes "userName") (string_at j (bytes "userName")))
        (at j (bytes "password") (string_at j (bytes "password")))
        (at j (bytes "isOnline") (bool_at j (bytes "isOnline")))

  module _ (L : IsObject J) (u : User) where
    members_of-lookup :
        (lookup (bytes "userName") (members_of u) ≡ some (string u.user_name))
        × (lookup (bytes "password") (members_of u) ≡ some (string u.password))
        × (lookup (bytes "isOnline") (members_of u) ≡ some (boolean u.is_online))
    unfolding lookup bytes bytes_eq
    members_of-lookup = (refl, refl, refl)

    -- A user that is written as JSON and read back is the same, for a JSON library whose objects
    -- have the members that they were given.
    pub from_json-to_json : from_json (to_json u) ≡ some u
    unfolding to_json from_json
    from_json-to_json =
        let ms = members_of u in
        let (name, password, online) = members_of-lookup in
        rw
          (
            L.contains_eq ms (bytes "userName") (string u.user_name) name,
            L.contains_eq ms (bytes "password") (string u.password) password,
            L.contains_eq ms (bytes "isOnline") (boolean u.is_online) online,
            L.string_eq ms (bytes "userName") u.user_name name,
            L.string_eq ms (bytes "password") u.password password,
            L.bool_eq ms (bytes "isOnline") u.is_online online,
          )
          refl
