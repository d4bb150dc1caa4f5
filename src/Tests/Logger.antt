-- ===== src/Tests/Logger.antt =====
-- A logger with a full current file, and its thread with two messages.
use chatroom_server.Prelude.{
  ℕ, ◌+◌, ◌≤◌, ◌≡◌, ◌≢◌, ◌∙◌, zero, suc, sym, ap, ◌++◌, refl, inl, inr, true, false, Bool-cases,
  bytes_eq_iff, decimal, read_digits, read_digits-decimal, append-nil, Bytes, bytes, bytes_eq,
  length, List, [], ◌∷◌, arith,
}
use chatroom_server.Utils.Logger.{
  Logger, info, rotate_log_file_if_needed, enqueue_log_message, open_log_file, file_text,
  other_files, purge_expired_log_files, append_to_file, write_log_to_file, concat,
}
use chatroom_server.Utils.Logged.{written, rotate-bounded}
use chatroom_server.Utils.Logger.Thread.{
  Act, logged, ran, stirred, begin_logging, notify, enqueue_and_notify, take_batch, write_on,
  log_act, log_acts, logged_messages, alone,
}
use chatroom_server.Utils.Logger.Names.{IsAhead, Rising}
use chatroom_server.Utils.Logger.Written.{log_acts-written}

abbrev with_backups : ℕ → Logger
with_backups n = record {
  config = record { max_file_size = 3; max_backup_files = n; async_logging = true };
  global_log_level = info;
  current = (bytes "b.log", bytes "two\n");
  backups = (bytes "a.log", bytes "one\n") ∷ [];
  log_queue = bytes "three\n" ∷ [];
}

-- A log file is named after its time.
distinct : (a b : ℕ) → a ≢ b → decimal a ≢ decimal b
distinct a b ne e =
    let number =
      λ (n : ℕ). ap (read_digits 0) (sym (append-nil (decimal n))) ∙ read_digits-decimal n [] tt in
    ne (ap (λ p. p.0) (sym (number a) ∙ ap (read_digits 0) e ∙ number b))

different : (a b : ℕ) → a ≢ b → bytes_eq (decimal a) (decimal b) ≡ false
different a b ne = elim (Bool-cases (bytes_eq (decimal a) (decimal b))) [
  | inl e ↦ absurd (distinct a b ne ((bytes_eq_iff (decimal a) (decimal b)).0 e))
  | inr e ↦ e
]

abbrev quiet : Logger
quiet = record (with_backups 0) {
  current = (decimal 0, bytes "two\n");
  backups = [];
  log_queue = [];
}

-- The second message comes while the thread sleeps, and the name is a new one then.
abbrev calls : List Act
calls =
    logged (decimal 1) (bytes "four\n")
    ∷ ran (decimal 1)
    ∷ ran (decimal 1)
    ∷ ran (decimal 1)
    ∷ logged (decimal 2) (bytes "five\n")
    ∷ stirred
    ∷ []

abbrev names : ℕ → List Bytes
names zero = []
names (suc n) = decimal 2 ∷ names n

quiet-IsAhead : IsAhead decimal 0 quiet
quiet-IsAhead = record {
  backups = λ t le. tt;
  current = λ t lt. different t 0 (λ e. omega (arith, e, lt));
}

names-Rising : (n t : ℕ) → t ≤ 2 → Rising decimal t (alone (names n))
names-Rising zero t h = tt
names-Rising (suc n) t h = (2, h, refl, names-Rising n 2 (omega arith))

log_acts-written_example :
    written (log_acts (alone (names 12)) (log_acts calls (begin_logging quiet))).logger
    ≡ written quiet ++ concat (logged_messages calls)
log_acts-written_example =
    log_acts-written decimal distinct quiet calls (names 12) 0 refl refl refl quiet-IsAhead
      (
        1,
        omega arith,
        refl,
        (1, omega arith, refl, (1, omega arith, refl, names-Rising 12 1 (omega arith))),
      )
      (omega arith)

rotated :
    (log_acts (alone (names 12)) (log_acts calls (begin_logging quiet))).logger.current
    ≡ (decimal 2, bytes "five\n")
unfolding log_acts log_act begin_logging enqueue_and_notify enqueue_log_message notify take_batch
    write_on write_log_to_file rotate_log_file_if_needed open_log_file purge_expired_log_files
    append_to_file file_text other_files concat bytes_eq bytes decimal
rotated = refl

rotate-bounded_example :
    length (rotate_log_file_if_needed (bytes "c.log") (with_backups 2)).backups + 1 ≤ 2
rotate-bounded_example = rotate-bounded (bytes "c.log") (with_backups 2) (omega arith) (omega arith)
