-- ===== src/Tests/Racing.antt =====
-- Two registrations of a name at once, and the theorems about them at concrete inputs.
use chatroom_server.Prelude.{◌≤◌, ℕ, List, [], ◌∷◌, Bytes, bytes}
use chatroom_server.Sql.Tables.{Tables}
use chatroom_server.Sql.Engine.{engine_laws}
use chatroom_server.Platform.Sample.{sample}
use chatroom_server.Utils.Counting.{total}
use chatroom_server.Db.Store.{check}
use chatroom_server.Db.Writes.{Holds}
use chatroom_server.Threaded.Racing.{Registering, asking, Race, Turn, registered, other, take_turns}
use chatroom_server.Threaded.Racing.Registers.{won, IsKnown}
use chatroom_server.Threaded.Racing.Winners.{take_turns-won}
use chatroom_server.Tests.Database.{nothing_stored, empty-Represents}
use chatroom_server.Tests.Fixture.{ann, ann-IsPlain, pw-IsPlain, empty}

abbrev both : ℕ → Registering
both i = asking ann (bytes "pw")

-- Both find that the name is free, then both create the user.
abbrev turns : List Turn
turns = registered 0 ∷ registered 1 ∷ registered 1 ∷ other (check ann) ∷ registered 0 ∷ []

abbrev raced : Race Tables
raced = take_turns sample 2 turns (record { world = empty; threads = both })

take_turns-won_example :
    ((u : Bytes) → total (won u) 2 raced.threads ≤ 1)
    × ((t : Tables) × Holds sample engine_laws raced.world t
        × ((i : ℕ) → IsKnown (raced.threads i) t))
take_turns-won_example =
    take_turns-won sample engine_laws 2 turns both empty nothing_stored
      (tt, (tt, (tt, (ann-IsPlain, (tt, tt))))) (λ i. tt) (λ i. (ann-IsPlain, pw-IsPlain))
      empty-Represents
