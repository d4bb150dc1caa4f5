-- ===== src/Tests/Chat.antt =====
-- A user as JSON, in a library for flat objects of texts and truth values.
use chatroom_server.Prelude.{
  ◌≡◌, ◌∙◌, sym, ap, Bool, true, false, Bytes, bytes, bytes_eq, List, [], ◌∷◌, map, Option, none,
  some, Bool-cases, inl, inr, arith, if◌then◌else◌,
}
use chatroom_server.Table.{lookup}
use chatroom_server.Platform.{JsonLibrary}
use chatroom_server.Db.Users.{User}
use chatroom_server.Chat.{IsObject}

data Scalar : Type 0 where
  text : Bytes → Scalar
  truth : Bool → Scalar
  other : Scalar

data Value : Type 0 where
  scalar : Scalar → Value
  members : List (Bytes × Scalar) → Value

abbrev scalar_of : Value → Scalar
scalar_of (scalar s) = s
scalar_of (members ms) = other

abbrev member_of : Bytes × Value → Bytes × Scalar
member_of (key, value) = (key, scalar_of value)

abbrev entry : Value → Bytes → Option Scalar
entry (scalar s) key = none
entry (members ms) key = lookup key ms

abbrev is_there : Option Scalar → Bool
is_there none = false
is_there (some s) = true

abbrev text_of : Option Scalar → Option Bytes
text_of (some (text b)) = some b
text_of _ = none

abbrev truth_of : Option Scalar → Option Bool
truth_of (some (truth b)) = some b
truth_of _ = none

abbrev flat : JsonLibrary
flat = record {
  Json = Value;
  parse = λ b. none;
  contains = λ j key. is_there (entry j key);
  string_at = λ j key. text_of (entry j key);
  null_at = λ j key. false;
  int_at = λ j key. none;
  bool_at = λ j key. truth_of (entry j key);
  string = λ b. scalar (text b);
  integer = λ n. scalar other;
  boolean = λ b. scalar (truth b);
  array = λ js. scalar other;
  object = λ ms. members (map member_of ms);
  dump = λ j. none;
}

abbrev scalar_in : Option Value → Option Scalar
scalar_in none = none
scalar_in (some v) = some (scalar_of v)

lookup-members :
    (ms : List (Bytes × Value)) (key : Bytes) (value : Value)
    → lookup key ms ≡ some value
    → lookup key (map member_of ms) ≡ some (scalar_of value)
unfolding lookup
lookup-members [] key value e = ground (arith, e)
lookup-members ((k, v) ∷ ms) key value e = elim (Bool-cases (bytes_eq k key)) [
  | inl same ↦ rw same (ap scalar_in (ap (λ b. if b then some v else lookup key ms) (sym same) ∙ e))
  | inr differs ↦ rw differs (
      lookup-members ms key value (ap (λ b. if b then some v else lookup key ms) (sym differs) ∙ e))
]

flat-IsObject : IsObject flat
flat-IsObject = record {
  contains_eq = λ ms key value e. ap is_there (lookup-members ms key value e);
  string_eq = λ ms key b e. ap text_of (lookup-members ms key (scalar (text b)) e);
  bool_eq = λ ms key b e. ap truth_of (lookup-members ms key (scalar (truth b)) e);
}

abbrev ann : User
ann = record { user_name = bytes "ann"; password = bytes "pw"; is_online = true }
