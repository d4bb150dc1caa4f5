-- ===== src/Utils/Logger/Thread.antt =====
-- The thread that writes the log (`asyncWriteLogToFile` in src/utils/logger.cpp) and the callers of
-- `enqueueLogMessage`: each step is what a thread does while it holds the mutex, or a write to the
-- files, which only this thread does. A write that throws is left out, as Logger has none.
use chatroom_server.Prelude.{
  Bool, true, false, not, ◌&&◌, ◌||◌, Bytes, List, [], ◌∷◌, if◌then◌else◌, take, drop,
}
use chatroom_server.Utils.Logger.{Logger, concat, enqueue_log_message, write_log_to_file}

-- Where the thread is: before it takes the mutex, in `wait`, with a batch and without the mutex, or
-- at its end.
pub data Writing : Type 0 where
  testing : Writing
  asleep : Writing
  holding : List Bytes → Writing
  ended : Writing

pub record Logging : Type 0 where
  pub logger : Logger
  pub stop_logging : Bool
  pub phase : Writing

-- A caller logs a message, the thread takes its next step, or it wakes up without a notification;
-- the path is that of `getNewLogFilePath`.
pub data Act : Type 0 where
  logged : (new_path message : Bytes) → Act
  ran : (new_path : Bytes) → Act
  stirred : Act

abbrev pub is_empty : List Bytes → Bool
is_empty [] = true
is_empty (m ∷ ms) = false

-- The end of `initLogger`.
unfoldable pub begin_logging : Logger → Logging
begin_logging l = record {
  logger = l;
  stop_logging = false;
  phase = if l.config.async_logging then testing else ended;
}

unfoldable pub notify : Writing → Writing
notify testing = testing
notify asleep = testing
notify (holding batch) = holding batch
notify ended = ended

unfoldable pub enqueue_and_notify : Bytes → Bytes → Logging → Logging
enqueue_and_notify new_path message s = record s {
  logger = enqueue_log_message new_path message s.logger;
  phase = if s.logger.config.async_logging then notify s.phase else s.phase;
}

-- The mutex is held: the condition of the wait, the end, or a batch of at most 100 messages.
unfoldable pub take_batch : Logging → Logging
take_batch s =
    let queue = s.logger.log_queue in
    if not (is_empty queue) || s.stop_logging
    then if s.stop_logging && is_empty queue then record s { phase = ended } else record s {
      logger = record s.logger { log_queue = drop 100 queue };
      phase = holding (take 100 queue);
    }
    else record s { phase = asleep }

unfoldable pub write_on : Bytes → Writing → Logging → Logging
write_on new_path testing s = take_batch s
write_on new_path asleep s = s
write_on new_path (holding batch) s = record s {
  logger = if is_empty batch then s.logger else write_log_to_file new_path (concat batch) s.logger;
  phase = testing;
}
write_on new_path ended s = s

unfoldable pub log_act : Act → Logging → Logging
log_act (logged new_path message) s = enqueue_and_notify new_path message s
log_act (ran new_path) s = write_on new_path s.phase s
log_act stirred s = record s { phase = notify s.phase }

unfoldable pub log_acts : List Act → Logging → Logging
log_acts [] s = s
log_acts (a ∷ rest) s = log_acts rest (log_act a s)

abbrev pub logged_messages : List Act → List Bytes
logged_messages [] = []
logged_messages (logged new_path message ∷ rest) = message ∷ logged_messages rest
logged_messages (ran new_path ∷ rest) = logged_messages rest
logged_messages (stirred ∷ rest) = logged_messages rest

-- Steps of the thread alone.
abbrev pub alone : List Bytes → List Act
alone [] = []
alone (new_path ∷ rest) = ran new_path ∷ alone rest
