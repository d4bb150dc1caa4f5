-- ===== src/Platform/Sample.antt =====
-- A platform for runs: the engine of Sql/Engine.antt, a JSON library for flat objects of texts, a
-- clock that ticks by seconds, and one static file.
use chatroom_server.Prelude.{
  ◌+◌, ◌*◌, ◌++◌, Bool, true, false, Bytes, bytes, bytes_eq, List, [], ◌∷◌, map, Option, none, some,
  ℤ, pos, negsuc, split_on, read_digits, decimal, if◌then◌else◌,
}
use chatroom_server.Table.{lookup}
use chatroom_server.Sql.Engine.{engine}
use chatroom_server.Platform.{Platform, JsonLibrary, FileSystem}

-- A value with its members, if it is an object, and its text.
pub record Document : Type 0 where
  pub members : List (Bytes × Bytes)
  pub written : Bytes

-- The pieces of `{"k":"v","l":"w"}` between its quotes.
unfoldable pub read_members : List Bytes → List (Bytes × Bytes)
read_members (separator ∷ k ∷ colon ∷ v ∷ rest) = (k, v) ∷ read_members rest
read_members _ = []

abbrev is_some {ℓ} : {A : Type ℓ} → Option A → Bool
is_some none = false
is_some (some a) = true

abbrev in_quotes : Bytes → Bytes
in_quotes b = 34 ∷ b ++ 34 ∷ []

unfoldable pub joined : List Bytes → Bytes
joined [] = []
joined (x ∷ []) = x
joined (x ∷ y ∷ xs) = x ++ bytes "," ++ joined (y ∷ xs)

abbrev signed : ℤ → Bytes
signed (pos n) = decimal n
signed (negsuc n) = bytes "-" ++ decimal (n + 1)

abbrev plain : Bytes → Document
plain b = record { members = []; written = b }

unfoldable pub parse_flat : Bytes → Option Document
parse_flat [] = none
parse_flat (c ∷ cs) =
    some (record { members = read_members (split_on 34 (c ∷ cs)); written = c ∷ cs })

abbrev number_of : Bytes → Option ℤ
number_of b = some (pos (read_digits 0 b).0)

abbrev bind {ℓ} : {A B : Type ℓ} → Option A → (A → Option B) → Option B
bind none f = none
bind (some a) f = f a

abbrev flat_json : JsonLibrary
flat_json = record {
  Json = Document;
  parse = parse_flat;
  contains = λ j k. is_some (lookup k j.members);
  string_at = λ j k. lookup k j.members;
  null_at = λ j k. false;
  int_at = λ j k. bind (lookup k j.members) number_of;
  bool_at = λ j k. none;
  string = λ b. plain (in_quotes b);
  integer = λ n. plain (signed n);
  boolean = λ b. plain (if b then bytes "true" else bytes "false");
  array = λ js. plain (bytes "[" ++ joined (map (λ j. j.written) js) ++ bytes "]");
  object = λ kvs. plain (
      bytes "{"
      ++ joined (map (λ kv. in_quotes kv.0 ++ bytes ":" ++ kv.1.written) kvs)
      ++ bytes "}");
  dump = λ j. some j.written;
}

abbrev one_file : FileSystem
one_file = record {
  join = λ dir rest. dir ++ bytes "/" ++ rest;
  exists = λ path. bytes_eq path (bytes "static/login.html");
  read = λ path. if bytes_eq path (bytes "static/login.html") then some (bytes "<html>") else none;
}

abbrev pub sample : Platform
sample = record {
  sqlite = engine;
  json = flat_json;
  clock = λ n. (n + 1) * 1_000_000_000;
  files = one_file;
}

-- Makes a run on this platform compute.
unfoldable pub running : Unit {0}
unfolding parse_flat read_members joined bytes bytes_eq lookup split_on read_digits decimal
running = tt
