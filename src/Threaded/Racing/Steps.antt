-- ===== src/Threaded/Racing/Steps.antt =====
-- POST /register of src/chatroom_server.cpp is the two steps of a registration.
use chatroom_server.Prelude.{◌≡◌, refl, true, false, Bool, Bytes, bytes, if◌then◌else◌}
use chatroom_server.Platform.{Platform}
use chatroom_server.Platform.Monad.{
  World, Outcome, returned, thrown, M, pure, continue, rescue, ◌>>=◌,
}
use chatroom_server.Http.Request.{HttpRequest}
use chatroom_server.Http.Response.{HttpResponse}
use chatroom_server.Db.Users.{create_user, validate_user}
use chatroom_server.Service.Fields.{HasTexts}
use chatroom_server.Threaded.Accounts.{register, invalid_json}
use chatroom_server.Threaded.Racing.{
  Registering, asking, creating, answered, exists_response, success_response, error_response,
  after_validate, after_create, register_on,
}

-- The response of a registration that is over.
abbrev pub response_of : {Db : Type 0} → Registering × World Db → Outcome HttpResponse × World Db
response_of (asking u p, w) = (thrown, w)
response_of (creating u p, w) = (thrown, w)
response_of (answered u created response, w) = (returned response, w)

module _ (P : Platform) where
  open P.sqlite use {Db}

  -- The steps of a thread that nothing interrupts.
  abbrev pub twice : Registering → World Db → Registering × World Db
  twice r w = let (r', w') = register_on P r w in register_on P r' w'

  abbrev on_created : Bool → M Db HttpResponse
  on_created created = if created then pure success_response else pure error_response

  created-response :
      (u : Bytes) (o : Outcome Bool × World Db)
      → rescue invalid_json (continue on_created o) ≡ response_of (after_create u o)
  unfolding after_create
  created-response u (returned true, w) = refl
  created-response u (returned false, w) = refl
  created-response u (thrown, w) = refl

  abbrev on_known : Bytes → Bytes → Bool → M Db HttpResponse
  on_known u p known = if known then pure exists_response else (create_user P u p >>= on_created)

  known-response :
      (u p : Bytes) (o : Outcome Bool × World Db)
      → rescue invalid_json (continue (on_known u p) o)
        ≡ response_of (register_on P (after_validate u p o).0 (after_validate u p o).1)
  unfolding after_validate register_on
  known-response u p (returned true, w) = refl
  known-response u p (returned false, w) = created-response u (create_user P u p w)
  known-response u p (thrown, w) = refl

  -- For a request with a user name and a password, the handler is the two steps of a registration
  -- one after the other: the same response and the same state.
  pub register-twice :
      (request : HttpRequest) (u p : Bytes) (w : World Db)
      → HasTexts P request.body (bytes "username") u (bytes "password") p
      → register P request w ≡ response_of (twice (asking u p) w)
  unfolding register register_on
  register-twice request u p w (doc, parsed, (has_u, get_u), (has_p, get_p)) =
      rw (parsed, has_u, has_p, get_u, get_p) (known-response u p (validate_user P u p w))
