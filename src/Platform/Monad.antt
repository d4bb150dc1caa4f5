-- ===== src/Platform/Monad.antt =====
-- The state and exceptions of a request: the members that its calls change, and `throw`. What a
-- handler wrote before an exception stays written.
use chatroom_server.Prelude.{ℕ, Option, none, some}

-- `db_` of a `DatabaseManager` (`none` for the null pointer), and how often the clock was read.
pub record World (Db : Type 0) : Type 0 where
  pub db : Option Db
  pub reads : ℕ

pub data Outcome (A : Type 0) : Type 0 where
  returned : A → Outcome A
  thrown : Outcome A

abbrev pub M : Type 0 → Type 0 → Type 0
M Db A = World Db → Outcome A × World Db

abbrev pub pure : {Db A : Type 0} → A → M Db A
pure a w = (returned a, w)

abbrev pub throw : {Db A : Type 0} → M Db A
throw w = (thrown, w)

abbrev pub continue : {Db A B : Type 0} → (A → M Db B) → Outcome A × World Db → Outcome B × World Db
continue f (returned a, w) = f a w
continue f (thrown, w) = (thrown, w)

infixl 5 ◌>>=◌ ◌>>◌
abbrev pub ◌>>=◌ : {Db A B : Type 0} → M Db A → (A → M Db B) → M Db B
◌>>=◌ m f w = continue f (m w)

-- A call whose result is dropped.
abbrev pub ◌>>◌ : {Db A B : Type 0} → M Db A → M Db B → M Db B
m >> k = m >>= λ _. k

abbrev pub rescue : {Db A : Type 0} → A → Outcome A × World Db → Outcome A × World Db
rescue a (returned b, w) = (returned b, w)
rescue a (thrown, w) = (returned a, w)

-- `try { m } catch (...) { return a; }`
abbrev pub catch : {Db A : Type 0} → M Db A → A → M Db A
catch m a w = rescue a (m w)

-- A value of the JSON library, or its exception.
abbrev pub or_throw : {Db A : Type 0} → Option A → M Db A
or_throw none = throw
or_throw (some a) = pure a
