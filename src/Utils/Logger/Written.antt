-- ===== src/Utils/Logger/Written.antt =====
-- The messages of a logger with a thread (src/utils/logger.cpp) reach the files.
use chatroom_server.Prelude.{
  ℕ, ◌+◌, ◌-◌, ◌*◌, ◌≤◌, ◌≡◌, ◌≢◌, ◌∙◌, refl, sym, ap, subst, true, false, Bytes, List, [], ◌∷◌,
  ◌++◌, length, length-append, append_assoc, append-nil, arith,
}
use chatroom_server.Utils.Logger.{Logger, concat}
use chatroom_server.Utils.Logger.Thread.{
  Writing, testing, asleep, holding, ended, Logging, Act, logged, ran, stirred, begin_logging,
  notify, enqueue_and_notify, write_on, log_act, log_acts, logged_messages, alone,
}
use chatroom_server.Utils.Logged.{IsNew, written}
use chatroom_server.Utils.Logger.Names.{Rising, IsAhead, write_on-IsAhead}
use chatroom_server.Utils.Logger.Orderly.{
  held, IsOrderly, enqueue-async, logged-IsOrderly, stirred-IsOrderly, left, to_do, write_on-Goes,
}

notify-left : (p : Writing) (n : ℕ) → left (notify p) n ≡ left p n
unfolding notify left
notify-left testing n = refl
notify-left asleep n = refl
notify-left (holding batch) n = refl
notify-left ended n = refl

left-suc : (p : Writing) (n : ℕ) → left p (n + 1) ≡ left p n + 2
unfolding left
left-suc testing n = omega arith
left-suc asleep n = omega arith
left-suc (holding batch) n = omega arith
left-suc ended n = omega arith

logged-most :
    (path message : Bytes) (s : Logging)
    → s.logger.config.async_logging ≡ true
    → to_do (enqueue_and_notify path message s) ≡ to_do s + 2
logged-most path message s e =
    ap to_do (enqueue-async path message s e)
    ∙ notify-left s.phase (length (s.logger.log_queue ++ message ∷ []))
    ∙ ap (left s.phase) (length-append s.logger.log_queue (message ∷ []))
    ∙ left-suc s.phase (length s.logger.log_queue)

none-left : (p : Writing) (queue : List Bytes) → left p (length queue) ≤ 0 → held p ++ queue ≡ []
unfolding left
none-left testing [] h = refl
none-left testing (m ∷ ms) h = ground (arith, h)
none-left asleep [] h = refl
none-left asleep (m ∷ ms) h = ground (arith, h)
none-left (holding batch) queue h = ground (arith, h)
none-left ended [] h = refl
none-left ended (m ∷ ms) h = ground (arith, h)

module _ (name : ℕ → Bytes) (distinct : (a b : ℕ) → a ≢ b → name a ≢ name b) where
  -- The logger between steps, with those that are to come.
  record Acts (text : Bytes) (n : ℕ) (more : List Act) (s : Logging) : Type 0 where
    orderly : IsOrderly text s
    most : to_do s ≤ n
    time : ℕ
    ahead : IsAhead name time s.logger
    rising : Rising name time more

  -- A step of the thread, with less left to do.
  ran-Acts :
      (text path : Bytes) (n : ℕ) (more : List Act) (s : Logging)
      → Acts text n (ran path ∷ more) s
      → Acts text (n - 1) more (write_on path s.phase s)
  ran-Acts text path n more s h =
      let (t, le, e, later) = h.rising in
      let new : IsNew path s.logger =
        subst (λ p. IsNew p s.logger) (sym e) (h.ahead.backups t le) in
      let g = write_on-Goes text path s.phase s refl h.orderly new in
      record {
        orderly = g.orderly;
        most = omega (arith, g.less, h.most);
        time = t;
        ahead =
            subst (λ p. IsAhead name t (write_on p s.phase s).logger) (sym e)
              (write_on-IsAhead name distinct h.time t s.phase s le h.orderly.keeps h.orderly.goes
                h.ahead);
        rising = later;
      }

  -- A message adds at most two steps to what the thread has to do.
  log_acts-Acts :
      (calls more : List Act) (text : Bytes) (n : ℕ) (s : Logging)
      → Acts text n (calls ++ more) s
      → Acts (text ++ concat (logged_messages calls)) (n + 2 * length calls) more (log_acts calls s)
  unfolding log_acts log_act concat
  log_acts-Acts [] more text n s h = record {
    orderly = subst (λ x. IsOrderly x s) (sym (append-nil text)) h.orderly;
    most = omega (arith, h.most);
    time = h.time;
    ahead = h.ahead;
    rising = h.rising;
  }
  log_acts-Acts (logged path message ∷ rest) more text n s h =
      let e = enqueue-async path message s h.orderly.async in
      let after =
        log_acts-Acts rest more (text ++ message) (n + 2) (enqueue_and_notify path message s)
          (record {
            orderly = logged-IsOrderly text path message s h.orderly;
            most = omega (arith, h.most, logged-most path message s h.orderly.async);
            time = h.time;
            ahead =
                subst (λ x. IsAhead name h.time x.logger) (sym e)
                  (record { backups = h.ahead.backups; current = h.ahead.current });
            rising = h.rising;
          }) in
      record {
        orderly =
            subst (λ x. IsOrderly x (log_acts rest (enqueue_and_notify path message s)))
              (append_assoc text message (concat (logged_messages rest))) after.orderly;
        most = omega (arith, after.most);
        time = after.time;
        ahead = after.ahead;
        rising = after.rising;
      }
  log_acts-Acts (ran path ∷ rest) more text n s h =
      let after =
        log_acts-Acts rest more text (n - 1) (write_on path s.phase s)
          (ran-Acts text path n (rest ++ more) s h) in
      record {
        orderly = after.orderly;
        most = omega (arith, after.most);
        time = after.time;
        ahead = after.ahead;
        rising = after.rising;
      }
  log_acts-Acts (stirred ∷ rest) more text n s h =
      let after = log_acts-Acts rest more text n (log_act stirred s) (record {
        orderly = stirred-IsOrderly text s h.orderly;
        most = omega (arith, h.most, notify-left s.phase (length s.logger.log_queue));
        time = h.time;
        ahead = h.ahead;
        rising = h.rising;
      }) in
      record {
        orderly = after.orderly;
        most = omega (arith, after.most);
        time = after.time;
        ahead = after.ahead;
        rising = after.rising;
      }

  alone-Acts :
      (paths : List Bytes) (text : Bytes) (n : ℕ) (s : Logging)
      → Acts text n (alone paths) s
      → Acts text (n - length paths) [] (log_acts (alone paths) s)
  unfolding log_acts log_act
  alone-Acts [] text n s h = record {
    orderly = h.orderly;
    most = omega (arith, h.most);
    time = h.time;
    ahead = h.ahead;
    rising = tt;
  }
  alone-Acts (path ∷ rest) text n s h =
      let after =
        alone-Acts rest text (n - 1) (write_on path s.phase s)
          (ran-Acts text path n (alone rest) s h) in
      record {
        orderly = after.orderly;
        most = omega (arith, after.most);
        time = after.time;
        ahead = after.ahead;
        rising = after.rising;
      }

  -- A logger that writes with its thread, keeps all backups and has an empty queue gets messages in
  -- any order with the steps and the wake-ups of the thread. The log files have different names at
  -- different times, the names that the thread gets are those of times that do not go back, and no
  -- file but the current one has one of these at the start. After two more steps of the thread for
  -- each of the calls and steps, the files hold what they held before, followed by the messages,
  -- each of them once and in the order in which they were logged.
  pub log_acts-written :
      (l : Logger) (calls : List Act) (paths : List Bytes) (now : ℕ)
      → l.config.async_logging ≡ true
      → l.config.max_backup_files ≡ 0
      → l.log_queue ≡ []
      → IsAhead name now l
      → Rising name now (calls ++ alone paths)
      → 2 * length calls ≤ length paths
      → written (log_acts (alone paths) (log_acts calls (begin_logging l))).logger
        ≡ written l ++ concat (logged_messages calls)
  unfolding begin_logging left concat
  log_acts-written l calls paths now async keeps empty ahead rising enough =
      let start : Logging = record { logger = l; stop_logging = false; phase = testing } in
      let begun : begin_logging l ≡ start = ground (arith, async) in
      let first : Acts (written l) 0 (calls ++ alone paths) start = record {
        orderly = record {
          whole = ap (λ q. written l ++ concat q) empty ∙ append-nil (written l);
          keeps = keeps;
          async = async;
          goes = refl;
          settled = tt;
        };
        most = ground (arith, ap (λ x. length x) empty);
        time = now;
        ahead = ahead;
        rising = rising;
      } in
      let last =
        alone-Acts paths (written l ++ concat (logged_messages calls)) (0 + 2 * length calls)
          (log_acts calls start) (log_acts-Acts calls (alone paths) (written l) 0 start first) in
      let s = log_acts (alone paths) (log_acts calls start) in
      let none = none-left s.phase s.logger.log_queue (omega (arith, last.most, enough)) in
      ap (λ x. written (log_acts (alone paths) (log_acts calls x)).logger) begun
      ∙ sym (append-nil (written s.logger))
      ∙ ap (λ q. written s.logger ++ concat q) (sym none)
      ∙ last.orderly.whole
