-- ===== src/Http/Sending.antt =====
-- The loop of `HttpServer::handleClient` that sends a response (src/http/http_server.cpp).
use chatroom_server.Prelude.{
  ℕ, ◌+◌, ◌-◌, ◌≤◌, ◌≡◌, ◌++◌, ◌∙◌, inl, inr, ap, refl, Bytes, drop, take, take-drop, Bool, true,
  false, Bool-cases, Option-cases, ltb, if◌then◌else◌, subst, take-take, take-all, length, List, [],
  ◌∷◌, Option, none, some, arith,
}
use chatroom_server.Http.Server.{
  WriteResult, wrote, interrupted, failed, Sending, after_write, write_loop,
}

-- `write` takes at most the bytes that it is given.
unfoldable pub Possible : List WriteResult → ℕ → Type 0
Possible [] n = Unit
Possible (wrote k ∷ results) n = (k ≤ n) × Possible results (n - k)
Possible (interrupted ∷ results) n = Possible results n
Possible (failed ∷ results) n = Unit

-- The client has the first `total_bytes_written` bytes, and the rest remains.
pub record IsSending (text : Bytes) (s : Sending) : Type 0 where
  pub sent_eq : s.sent ≡ take s.total_bytes_written text
  pub count_eq : s.total_bytes_written + s.remaining ≡ length text

abbrev pub start : Bytes → Sending
start text = record { sent = []; total_bytes_written = 0; remaining = length text }

pub start-IsSending : (text : Bytes) → IsSending text (start text)
start-IsSending text = record { sent_eq = refl; count_eq = omega arith }

after_write-IsSending :
    (text : Bytes) (n : ℕ) (s : Sending)
    → n ≤ s.remaining
    → IsSending text s
    → IsSending text (after_write text n s)
unfolding after_write
after_write-IsSending text n s le h = record {
  sent_eq =
      ap (s.sent ++◌) (take-take n s.remaining (drop s.total_bytes_written text) le)
      ∙ ap (◌++ take n (drop s.total_bytes_written text)) h.sent_eq
      ∙ take-drop s.total_bytes_written n text;
  count_eq = let e = h.count_eq in omega arith;
}

after_write-Possible :
    (text : Bytes) (n : ℕ) (s : Sending) (results : List WriteResult)
    → Possible results (s.remaining - n)
    → Possible results (after_write text n s).remaining
unfolding after_write
after_write-Possible text n s results p = p

stopped :
    (b : Bool) (o : Option Sending) (s s' : Sending)
    → b ≡ false
    → (if b then o else some s) ≡ some s'
    → s ≡ s'
stopped b o s s' f e = ground arith

continued :
    (b : Bool) (o : Option Sending) (s s' : Sending)
    → b ≡ true
    → (if b then o else some s) ≡ some s'
    → o ≡ some s'
continued b o s s' t e = ground arith

-- At every end of the loop, the client has got exactly the first `total_bytes_written` bytes of the
-- response, and `remaining` counts the others, whatever partial writes and interruptions came
-- before.
pub write_loop-IsSending :
    (text : Bytes) (results : List WriteResult) (s s' : Sending)
    → Possible results s.remaining
    → IsSending text s
    → write_loop text results s ≡ some s'
    → IsSending text s'
unfolding write_loop Possible
write_loop-IsSending text [] s s' p h e = subst (IsSending text) (ground arith) h
write_loop-IsSending text (failed ∷ results) s s' p h e = subst (IsSending text) (ground arith) h
write_loop-IsSending text (interrupted ∷ results) s s' p h e =
    let again = write_loop text results s in
    elim (Bool-cases (ltb 0 s.remaining)) [
      | inl t ↦
          write_loop-IsSending text results s s' p h (continued (ltb 0 s.remaining) again s s' t e)
      | inr f ↦ subst (IsSending text) (stopped (ltb 0 s.remaining) again s s' f e) h
    ]
write_loop-IsSending text (wrote n ∷ results) s s' (le, p) h e =
    let next = after_write text n s in
    let again = write_loop text results next in
    elim (Bool-cases (ltb 0 s.remaining)) [
      | inl t ↦
          write_loop-IsSending text results next s' (after_write-Possible text n s results p)
            (after_write-IsSending text n s le h) (continued (ltb 0 s.remaining) again s s' t e)
      | inr f ↦ subst (IsSending text) (stopped (ltb 0 s.remaining) again s s' f e) h
    ]

-- How much the calls take together, if none fails.
unfoldable pub written : List WriteResult → Option ℕ
written [] = some 0
written (interrupted ∷ results) = written results
written (failed ∷ results) = none
written (wrote n ∷ results) = elim (written results) [ none ↦ none | some m ↦ some (n + m) ]

write_loop-returns :
    (text : Bytes) (results : List WriteResult) (s : Sending) (m : ℕ)
    → written results ≡ some m
    → s.remaining ≤ m
    → Possible results s.remaining
    → (s' : Sending) × (write_loop text results s ≡ some s') × (s'.remaining ≡ 0)
unfolding write_loop written Possible after_write
write_loop-returns text [] s m e le p = (s, ground arith, ground arith)
write_loop-returns text (failed ∷ results) s m e le p = ground arith
write_loop-returns text (interrupted ∷ results) s m e le p = elim (Bool-cases (ltb 0 s.remaining)) [
  | inl t ↦ rw t (write_loop-returns text results s m e le p)
  | inr f ↦ rw f (s, refl, ground arith)
]
write_loop-returns text (wrote n ∷ results) s m e le p =
    let next = after_write text n s in
    elim (Option-cases (written results)) [
      | inl none_left ↦ ground arith
      | inr (k, some_left) ↦
          let rest =
            write_loop-returns text results next k some_left (ground arith)
              (after_write-Possible text n s results p.1) in
          elim (Bool-cases (ltb 0 s.remaining)) [
            | inl t ↦ rw t rest
            | inr f ↦ rw f (s, refl, ground arith)
          ]
    ]

IsSending-all :
    (text : Bytes) (s : Sending)
    → IsSending text s
    → s.remaining ≡ 0
    → s ≡ record { sent = text; total_bytes_written = length text; remaining = 0 }
IsSending-all text s h e =
    let total : s.total_bytes_written ≡ length text = let c = h.count_eq in omega arith in
    let all : s.sent ≡ text =
      h.sent_eq ∙ ap (λ n. take n text) total ∙ take-all (length text) text (omega arith) in
    cc (all, total, e)

-- If no call of `write` fails and together they may take as many bytes as the response has, then
-- the loop ends and the client has got the whole response.
pub write_loop-start :
    (text : Bytes) (results : List WriteResult) (m : ℕ)
    → Possible results (length text)
    → written results ≡ some m
    → length text ≤ m
    → write_loop text results (start text)
      ≡ some (record { sent = text; total_bytes_written = length text; remaining = 0 })
write_loop-start text results m p e le =
    let (s, returns, done) = write_loop-returns text results (start text) m e le p in
    returns
    ∙ ap some (
        IsSending-all text s
          (write_loop-IsSending text results (start text) s p (start-IsSending text) returns) done)
