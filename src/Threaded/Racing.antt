-- ===== src/Threaded/Racing.antt =====
-- Registrations by several threads of the pool at once (POST /register in src/chatroom_server.cpp):
-- each call of DatabaseManager holds its mutex, and other calls may come between the two calls of a
-- registration.
pub mod Steps
pub mod Registers
pub mod Winners
use chatroom_server.Prelude.{
  ℕ, Bool, true, false, Bytes, bytes, bytes_eq, ◌&&◌, List, [], ◌∷◌, if◌then◌else◌, ltb,
}
use chatroom_server.Platform.{Platform}
use chatroom_server.Platform.Monad.{World, Outcome, returned, thrown}
use chatroom_server.Http.Response.{HttpResponse, http_response}
use chatroom_server.Utils.Counting.{update}
use chatroom_server.Db.Users.{create_user, validate_user}
use chatroom_server.Db.Store.{Command}
use chatroom_server.Db.Traces.{perform}
use chatroom_server.Threaded.Accounts.{json_response, invalid_json}

-- Where a registration with a name and a password is: before `validateUser`, before `createUser`,
-- or after its response, with whether the user was created.
pub data Registering : Type 0 where
  asking : (username password : Bytes) → Registering
  creating : (username password : Bytes) → Registering
  answered : (username : Bytes) (created : Bool) (response : HttpResponse) → Registering

abbrev pub exists_response : HttpResponse
exists_response = http_response 400 (bytes "{\"error\":\"Username already exists\"}")

abbrev pub success_response : HttpResponse
success_response = json_response (bytes "{\"status\":\"success\"}")

abbrev pub error_response : HttpResponse
error_response = http_response 500 (bytes "{\"error\":\"Internal server error\"}")

module _ {Db : Type 0} where
  -- What follows `validateUser`, and what follows `createUser`.
  unfoldable pub after_validate : Bytes → Bytes → Outcome Bool × World Db → Registering × World Db
  after_validate username password (returned true, w) = (answered username false exists_response, w)
  after_validate username password (returned false, w) = (creating username password, w)
  after_validate username password (thrown, w) = (answered username false invalid_json, w)

  unfoldable pub after_create : Bytes → Outcome Bool × World Db → Registering × World Db
  after_create username (returned true, w) = (answered username true success_response, w)
  after_create username (returned false, w) = (answered username false error_response, w)
  after_create username (thrown, w) = (answered username false invalid_json, w)

-- The connection, and the registrations by their threads.
pub record Race (Db : Type 0) : Type 0 where
  pub world : World Db
  pub threads : ℕ → Registering

-- A thread makes its next call, or another thread calls a method.
pub data Turn : Type 0 where
  registered : ℕ → Turn
  other : Command → Turn

abbrev pub with_thread : {Db : Type 0} → ℕ → Race Db → Registering × World Db → Race Db
with_thread i s (r, w) = record { world = w; threads = update s.threads i r }

module _ (P : Platform) where
  open P.sqlite use {Db}

  unfoldable pub register_on : Registering → World Db → Registering × World Db
  register_on (asking username password) w =
      after_validate username password (validate_user P username password w)
  register_on (creating username password) w =
      after_create username (create_user P username password w)
  register_on (answered username created response) w = (answered username created response, w)

  unfoldable pub take_turn : ℕ → Turn → Race Db → Race Db
  take_turn n (registered i) s =
      if ltb i n then with_thread i s (register_on (s.threads i) s.world) else s
  take_turn n (other c) s = record s { world = (perform P c s.world).1 }

  unfoldable pub take_turns : ℕ → List Turn → Race Db → Race Db
  take_turns n [] s = s
  take_turns n (t ∷ ts) s = take_turns n ts (take_turn n t s)
