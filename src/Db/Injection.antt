-- ===== src/Db/Injection.antt =====
-- How far the SQL texts of src/db/database_manager.cpp, which are put together without escaping,
-- keep their arguments apart.
use chatroom_server.Prelude.{◌≡◌, sym, ap, ◌∙◌, ◌++◌, Bytes, bytes, some, append_assoc}
use chatroom_server.Sql.Statement.{Statement}
use chatroom_server.Sql.Laws.{PlainStatement}
use chatroom_server.Sql.Engine.Reading.{read_statement, read_statement-text_of}
use chatroom_server.Db.Users.{validate_user_query}
use chatroom_server.Db.Texts.{code_text, code_text_lem}

some_inj : {a b : Statement} → some a ≡ some b → a ≡ b
some_inj e = cc

read-code_text : (s : Statement) → PlainStatement s → read_statement (code_text s) ≡ some s
read-code_text s p = ap read_statement (code_text_lem s) ∙ read_statement-text_of s p

-- Two calls that change the database and whose texts hold no quote and no NUL byte send different
-- SQL, unless they intend the same statement with the same arguments.
pub code_text_inj :
    (s s' : Statement) → PlainStatement s → PlainStatement s' → code_text s ≡ code_text s' → s ≡ s'
code_text_inj s s' p p' e =
    some_inj (sym (read-code_text s p) ∙ ap read_statement e ∙ read-code_text s' p')

-- With quotes in the arguments the password check of different credentials is one and the same
-- query: whatever `a`, `b` and `c` are, the user `a' AND password='b` with the password `c`, and
-- the user `a` with the password `b' AND password='c`.
pub validate_user_query_collision :
    (a b c : Bytes)
    → validate_user_query (a ++ (bytes "' AND password='" ++ b)) c
      ≡ validate_user_query a (b ++ (bytes "' AND password='" ++ c))
unfolding validate_user_query
validate_user_query_collision a b c = simp append_assoc
