-- ===== src/Service/OverHttp.antt =====
-- What users do over HTTP with the loop of src/chatroom_server_epoll.cpp, in two requests.
use chatroom_server.Prelude.{
  ℤ, take, ◌^◌, ◌++◌, map, ◌<◌, ◌≡◌, ◌≢◌, ap, refl, true, false, Bytes, bytes, List, [], ◌∷◌, some,
}
use chatroom_server.Sql.Tables.{Tables, has, named}
use chatroom_server.Sql.Laws.{IsSqlite, IsPlain}
use chatroom_server.Sql.Keys.{UniqueKeys}
use chatroom_server.Platform.{Platform}
use chatroom_server.Platform.Monad.{World, returned}
use chatroom_server.Db.Writes.{Holds}
use chatroom_server.Epoll.Accounts as accounts
use chatroom_server.Epoll.Routes.{setup_routes}
use chatroom_server.Epoll.Connections.{Server, Event, give_up, send, handle}
use chatroom_server.Epoll.Lifetime.{AllFresh}
use chatroom_server.Epoll.Runs.{Reachable, handled}
use chatroom_server.Epoll.Reading.{read_reply}
use chatroom_server.Agreement.{register, login, send_message, messages, epoll}
use chatroom_server.Service.Fields.{HasTexts}
use chatroom_server.Service.Accounts.{login_info}
use chatroom_server.Service.Session.{register-login}
use chatroom_server.Service.Conversation.{Sending, Reading, message_at, is_after, send-messages}
use mathlib.Core.List.{Perm}
use chatroom_server.Sql.{Row}
use chatroom_server.Sql.Tables.{keep, message_in}
use chatroom_server.Sql.Laws.{Ascending}
use chatroom_server.Db.Texts.{since_of}
use chatroom_server.Db.Messages.{row_message}
use chatroom_server.Db.Listings.{Timely, message_json}
use chatroom_server.Service.Exchange.{Asks, Connected, give_up-Connected, handle-api}

module _ (P : Platform) (dir : Bytes) where
  open P.sqlite use {Db}

  -- A user registers and logs in over HTTP, on two connections one after the other: in a reachable
  -- state, with an open database with unique keys and a user name that no row has, the first client
  -- is answered with the success object, and the second, which sends the same name and password to
  -- /login, with the user's data. Each gets the bytes that `send` takes of a response, and reads the
  -- answer from the whole of it. Name and password have no quote and no NUL byte, the answer can be
  -- dumped, and the system returns no descriptor that is open.
  pub register-login-http :
      (L : IsSqlite P.sqlite) (first second : Event) (body u p text : Bytes) (s : Server)
      (w : World Db) (t : Tables)
      → Reachable P dir (setup_routes P) s
      → AllFresh first.accepts s
      → Connected first.fd s
      → Connected second.fd s
      → second.fd ≢ first.fd
      → Asks first register body
      → Asks second login body
      → Holds P L w t
      → UniqueKeys t
      → has (named u) t.users ≡ false
      → IsPlain u
      → IsPlain p
      → HasTexts P body (bytes "username") u (bytes "password") p
      → P.json.dump (login_info P u) ≡ some text
      → (s' s'' : Server) × (w' w'' : World Db) × (response response' : Bytes) × (handle P dir
            (setup_routes P)
            first
            s
            w
          ≡ (returned s', w'))
        × (handle P dir (setup_routes P) second s' w' ≡ (returned s'', w''))
        × (s''.sent
            ≡ (second.fd, take second.send_takes response')
              ∷ (first.fd, take first.send_takes response)
              ∷ s.sent)
        × (read_reply response ≡ some (200, bytes "{\"status\":\"success\"}"))
        × (read_reply response' ≡ some (200, text))
  unfolding epoll send give_up
  register-login-http L first second body u p text s w t reachable fresh c c' ne a a' h k free pu pp
        fields dumped =
      let (welcome, entry) = register-login P L body u p pu pp fields text dumped w t h k free in
      let w' = (accounts.register P body w).1 in
      let w'' = (accounts.login P body w').1 in
      let (response, served, read) =
        handle-api P dir first register body (bytes "{\"status\":\"success\"}") s w w' reachable c a
          (ap (λ o. (o, w')) welcome) in
      let s' = give_up first.fd (send first.fd first.send_takes response s) in
      let (response', served', read') =
        handle-api P dir second login body text s' w' w''
          (handled first s s' w w' reachable fresh served)
          (give_up-Connected first.fd second.fd first.send_takes response s ne c') a'
          (ap (λ o. (o, w'')) entry) in
      (
        s',
        give_up second.fd (send second.fd second.send_takes response' s'),
        w',
        w'',
        response,
        response',
        served,
        served',
        refl,
        read,
        read',
      )

  -- A message is sent and read over HTTP, on two connections one after the other: under the
  -- conditions of `send-messages` on the texts, the times and the database, in a reachable state,
  -- the first client is answered with the success object, and the second, which asks for the messages
  -- of the room, with the text of an array that has, by ascending timestamp, an object for each earlier
  -- message of the room after `since`, one for the message sent, and nothing else, provided this
  -- array can be dumped. Each client gets the bytes that `send` takes of a response, and reads the
  -- answer from the whole of it. The system returns no descriptor that is open.
  pub send-messages-http :
      (L : IsSqlite P.sqlite) (first second : Event) (body body' n u c v : Bytes) (since : ℤ)
      (s : Server) (w : World Db) (t : Tables)
      → Reachable P dir (setup_routes P) s
      → AllFresh first.accepts s
      → Connected first.fd s
      → Connected second.fd s
      → second.fd ≢ first.fd
      → Asks first send_message body
      → Asks second messages body'
      → Holds P L w t
      → UniqueKeys t
      → Timely t.messages
      → IsPlain n
      → IsPlain u
      → IsPlain c
      → IsPlain v
      → Sending P body n u c
      → Reading P body' n v since
      → (message_at P w n u c).timestamp < 2 ^ 63
      → is_after (since_of since) (message_at P w n u c).timestamp ≡ true
      → (s' : Server) × (w' : World Db) × (response : Bytes) × (rows : List Row) × (handle P dir
            (setup_routes P)
            first
            s
            w
          ≡ (returned s', w'))
        × (read_reply response ≡ some (200, bytes "{\"status\":\"success\"}"))
        × (s'.sent ≡ (first.fd, take first.send_takes response) ∷ s.sent)
        × Perm (map (row_message P) rows) (
            map (message_json P) (keep (message_in n (since_of since)) t.messages)
            ++ message_json P (message_at P w n u c) ∷ [])
        × Ascending rows
        × ((text : Bytes)
            → P.json.dump (P.json.array (map (row_message P) rows)) ≡ some text
            → (s'' : Server) × (w'' : World Db) × (response' : Bytes) × (handle P dir
                  (setup_routes P)
                  second
                  s'
                  w'
                ≡ (returned s'', w''))
              × (s''.sent ≡ (second.fd, take second.send_takes response') ∷ s'.sent)
              × (read_reply response' ≡ some (200, text)))
  unfolding epoll send give_up
  send-messages-http L first second body body' n u c v since s w t reachable fresh k k' ne a a' h
        keys timely pn pu pc pv sending reading small after =
      let (accepted, rows, reply, perm, order) =
        send-messages P L body body' n u c v since w t h keys timely pn pu pc pv sending reading
          small after in
      let w' = (epoll P send_message body w).1 in
      let (response, served, read) =
        handle-api P dir first send_message body (bytes "{\"status\":\"success\"}") s w w' reachable
          k a (ap (λ o. (o, w')) accepted) in
      let s' = give_up first.fd (send first.fd first.send_takes response s) in
      (
        s',
        w',
        response,
        rows,
        served,
        read,
        refl,
        perm,
        order,
        λ text dumped.
            let w'' = (epoll P messages body' w').1 in
            let (response', served', read') =
              handle-api P dir second messages body' text s' w' w''
                (handled first s s' w w' reachable fresh served)
                (give_up-Connected first.fd second.fd first.send_takes response s ne k') a'
                (ap (λ o. (o, w'')) (reply text dumped)) in
            (
              give_up second.fd (send second.fd second.send_takes response' s'),
              w'',
              response',
              served',
              refl,
              read',
            ),
      )
