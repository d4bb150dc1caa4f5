-- ===== src/Utils/Logger/Orderly.antt =====
-- Single steps of the thread that writes the log and of its callers (src/utils/logger.cpp): no text is
-- lost, and the thread has less left to do.
use chatroom_server.Prelude.{
  ℕ, ◌+◌, ◌-◌, ◌*◌, ◌≤◌, ◌≡◌, ◌∙◌, refl, sym, ap, subst, true, false, Bytes, List, [], ◌∷◌, ◌++◌,
  length, take, drop, take-append-drop, length-drop, if◌then◌else◌, append_assoc, append-nil, arith,
}
use chatroom_server.Utils.Logger.{Logger, concat, enqueue_log_message, write_log_to_file}
use chatroom_server.Utils.Logger.Thread.{
  Writing, testing, asleep, holding, ended, Logging, stirred, is_empty, notify, enqueue_and_notify,
  take_batch, write_on, log_act,
}
use chatroom_server.Utils.Logged.{IsNew, written, write-texts, concat-append}

abbrev pub held : Writing → List Bytes
held testing = []
held asleep = []
held (holding batch) = batch
held ended = []

-- The thread sleeps only while no message waits, and it has not ended.
abbrev pub Settled : Writing → List Bytes → Type 0
Settled testing queue = Unit
Settled asleep queue = queue ≡ []
Settled (holding batch) queue = Unit
Settled ended queue = ⊥

-- What is in the files, with the thread and in the queue.
abbrev everything : Writing → Logger → Bytes
everything phase l = written l ++ concat (held phase ++ l.log_queue)

pub record IsOrderly (text : Bytes) (s : Logging) : Type 0 where
  pub whole : everything s.phase s.logger ≡ text
  pub keeps : s.logger.config.max_backup_files ≡ 0
  pub async : s.logger.config.async_logging ≡ true
  pub goes : s.stop_logging ≡ false
  pub settled : Settled s.phase s.logger.log_queue

notify-held : (p : Writing) → held (notify p) ≡ held p
unfolding notify
notify-held testing = refl
notify-held asleep = refl
notify-held (holding batch) = refl
notify-held ended = refl

notify-Settled :
    (p : Writing) (queue after : List Bytes) → Settled p queue → Settled (notify p) after
unfolding notify
notify-Settled testing queue after h = tt
notify-Settled asleep queue after h = tt
notify-Settled (holding batch) queue after h = tt
notify-Settled ended queue after h = h

pub enqueue-async :
    (path message : Bytes) (s : Logging)
    → s.logger.config.async_logging ≡ true
    → enqueue_and_notify path message s ≡ record s {
      logger = record s.logger { log_queue = s.logger.log_queue ++ message ∷ [] };
      phase = notify s.phase;
    }
unfolding enqueue_and_notify enqueue_log_message
enqueue-async path message s e = ground (arith, e)

pub take-none :
    (s : Logging)
    → s.logger.log_queue ≡ []
    → s.stop_logging ≡ false
    → take_batch s ≡ record s { phase = asleep }
unfolding take_batch
take-none s e f = ground (arith, e, f)

pub take-some :
    (s : Logging) (m : Bytes) (ms : List Bytes)
    → s.logger.log_queue ≡ m ∷ ms
    → take_batch s ≡ record s {
      logger = record s.logger { log_queue = drop 100 s.logger.log_queue };
      phase = holding (take 100 s.logger.log_queue);
    }
unfolding take_batch
take-some s m ms e = ground (arith, e)

concat-snoc : (ms : List Bytes) (m : Bytes) → concat (ms ++ m ∷ []) ≡ concat ms ++ m
unfolding concat
concat-snoc ms m = concat-append ms (m ∷ []) ∙ ap (concat ms ++◌) (append-nil m)

pub logged-IsOrderly :
    (text path message : Bytes) (s : Logging)
    → IsOrderly text s
    → IsOrderly (text ++ message) (enqueue_and_notify path message s)
logged-IsOrderly text path message s h =
    let files = written s.logger in
    let batch = held s.phase in
    let queue = s.logger.log_queue in
    subst (IsOrderly (text ++ message)) (sym (enqueue-async path message s h.async)) (record {
      whole =
          ap (λ b. files ++ concat (b ++ (queue ++ message ∷ []))) (notify-held s.phase)
          ∙ ap (λ ms. files ++ concat ms) (sym (append_assoc batch queue (message ∷ [])))
          ∙ ap (files ++◌) (concat-snoc (batch ++ queue) message)
          ∙ sym (append_assoc files (concat (batch ++ queue)) message)
          ∙ ap (◌++ message) h.whole;
      keeps = h.keeps;
      async = h.async;
      goes = h.goes;
      settled = notify-Settled s.phase queue (queue ++ message ∷ []) h.settled;
    })

pub stirred-IsOrderly :
    (text : Bytes) (s : Logging) → IsOrderly text s → IsOrderly text (log_act stirred s)
unfolding log_act
stirred-IsOrderly text s h = record {
  whole =
      ap (λ b. written s.logger ++ concat (b ++ s.logger.log_queue)) (notify-held s.phase)
      ∙ h.whole;
  keeps = h.keeps;
  async = h.async;
  goes = h.goes;
  settled = notify-Settled s.phase s.logger.log_queue s.logger.log_queue h.settled;
}

-- The steps that the thread has left to do.
unfoldable pub left : Writing → ℕ → ℕ
left testing n = 2 * n
left asleep n = 2 * n
left (holding batch) n = 2 * n + 1
left ended n = 2 * n

abbrev pub to_do : Logging → ℕ
to_do s = left s.phase (length s.logger.log_queue)

pub record Goes (text : Bytes) (s after : Logging) : Type 0 where
  pub orderly : IsOrderly text after
  pub less : to_do after ≤ to_do s - 1

-- The thread with the mutex, when the queue is as it was matched.
take_batch-Goes :
    (text : Bytes) (s : Logging) (queue : List Bytes)
    → s.logger.log_queue ≡ queue
    → s.phase ≡ testing
    → IsOrderly text s
    → Goes text s (take_batch s)
unfolding left
take_batch-Goes text s [] e p h = subst (Goes text s) (sym (take-none s e h.goes)) (record {
  orderly = record {
    whole = ap (λ q. everything q s.logger) (sym p) ∙ h.whole;
    keeps = h.keeps;
    async = h.async;
    goes = h.goes;
    settled = e;
  };
  less = ground (arith, e);
})
take_batch-Goes text s (m ∷ ms) e p h = subst (Goes text s) (sym (take-some s m ms e)) (record {
  orderly = record {
    whole =
        ap (λ q. written s.logger ++ concat q) (take-append-drop 100 s.logger.log_queue)
        ∙ ap (λ q. everything q s.logger) (sym p)
        ∙ h.whole;
    keeps = h.keeps;
    async = h.async;
    goes = h.goes;
    settled = tt;
  };
  less = ground (arith, e, p, ap (λ x. length x) e, length-drop 100 s.logger.log_queue);
})

batch-written :
    (path : Bytes) (batch : List Bytes) (l : Logger)
    → l.config.max_backup_files ≡ 0
    → IsNew path l
    → let after = if is_empty batch then l else write_log_to_file path (concat batch) l in
      (written after ≡ written l ++ concat batch)
      × ((after.log_queue ≡ l.log_queue) × (after.config ≡ l.config))
unfolding concat
batch-written path [] l h new = (sym (append-nil (written l)), (refl, refl))
batch-written path (m ∷ ms) l h new = write-texts path (concat (m ∷ ms)) l h new

pub write_on-Goes :
    (text path : Bytes) (phase : Writing) (s : Logging)
    → s.phase ≡ phase
    → IsOrderly text s
    → IsNew path s.logger
    → Goes text s (write_on path phase s)
unfolding write_on left
write_on-Goes text path testing s p h new = take_batch-Goes text s s.logger.log_queue refl p h
write_on-Goes text path asleep s p h new =
    let none : s.logger.log_queue ≡ [] = subst (λ q. Settled q s.logger.log_queue) p h.settled in
    record { orderly = h; less = ground (arith, p, ap (λ x. length x) none) }
write_on-Goes text path (holding batch) s p h new =
    let after =
      if is_empty batch then s.logger else write_log_to_file path (concat batch) s.logger in
    let (files, (queue, config)) = batch-written path batch s.logger h.keeps new in
    record {
      orderly = record {
        whole =
            ap (λ q. written after ++ concat q) queue
            ∙ ap (◌++ concat s.logger.log_queue) files
            ∙ append_assoc (written s.logger) (concat batch) (concat s.logger.log_queue)
            ∙ ap (written s.logger ++◌) (sym (concat-append batch s.logger.log_queue))
            ∙ ap (λ q. everything q s.logger) (sym p)
            ∙ h.whole;
        keeps = ap (λ c. c.max_backup_files) config ∙ h.keeps;
        async = ap (λ c. c.async_logging) config ∙ h.async;
        goes = h.goes;
        settled = tt;
      };
      less = ground (arith, p, ap (λ x. length x) queue);
    }
write_on-Goes text path ended s p h new =
    absurd (subst (λ q. Settled q s.logger.log_queue) p h.settled)
