-- ===== src/Utils/LogStream.antt =====
-- `Logger::LogStream`, which the macro LOG makes for one message, with the level filter, the consoles
-- and the set-up of Logger (src/utils/logger.cpp, src/utils/logger.hpp).
use chatroom_server.Prelude.{
  ℕ, ◌++◌, ◌≡◌, refl, Bool, Bool-cases, inl, inr, Bytes, bytes, decimal, [], ◌∷◌, if◌then◌else◌,
  leb,
}
use chatroom_server.Utils.Logger.{
  LogLevel, error, rank, LogConfig, Logger, get_level_color, get_level_str, get_file_name,
  log_message, enqueue_log_message, log,
}
use chatroom_server.Utils.LogNames.{Tm, get_new_log_file_path}

-- The logger with what stands on std::cout and std::cerr.
pub record Output : Type 0 where
  pub logger : Logger
  pub cout : Bytes
  pub cerr : Bytes

-- The thread's stream is empty when a LogStream begins.
pub record LogStream : Type 0 where
  pub level : LogLevel
  pub stream : Bytes

-- `level_ >= Logger::getGlobalLogLevel()`
unfoldable pub get_global_log_level : Logger → LogLevel
get_global_log_level l = l.global_log_level

unfoldable pub set_global_log_level : LogLevel → Logger → Logger
set_global_log_level level l = record l { global_log_level = level }

abbrev pub is_logged : LogLevel → Logger → Bool
is_logged level l = leb (rank (get_global_log_level l)) (rank level)

-- The constructor, at the time that `getCurrentTime` returns.
unfoldable pub log_stream : LogLevel → Bytes → Bytes → Bytes → ℕ → Logger → LogStream
log_stream level time file function line l = record {
  level = level;
  stream =
      if is_logged level l
      then get_level_color level
        ++ bytes "["
        ++ get_level_str level
        ++ bytes "] "
        ++ time
        ++ bytes " "
        ++ get_file_name file
        ++ bytes ":"
        ++ decimal line
        ++ bytes " "
        ++ function
        ++ bytes ": "
        ++ (27 ∷ bytes "[0m")
      else [];
}

-- `operator<<`
unfoldable pub write_message : Bytes → Logger → LogStream → LogStream
write_message message l s = record s {
  stream = if is_logged s.level l then s.stream ++ message else s.stream;
}

-- The destructor.
unfoldable pub end_stream : Bytes → LogStream → Output → Output
end_stream new_path s o =
    let text = s.stream ++ bytes "\n" in
    if is_logged s.level o.logger
    then record {
      logger = enqueue_log_message new_path text o.logger;
      cout = o.cout ++ text;
      cerr = if leb (rank error) (rank s.level) then o.cerr ++ text else o.cerr;
    }
    else o

-- `Logger::log`
unfoldable pub log_to : LogLevel → Bytes → Bytes → Bytes → ℕ → Bytes → Bytes → Output → Output
log_to level time file function line message new_path o =
    end_stream new_path
      (write_message message o.logger (log_stream level time file function line o.logger)) o

-- `initLogger`, where the file of that name has this text already; the thread is that of Utils.Logger.Thread.
unfoldable pub init_logger : LogConfig → Bytes → Tm → Bytes → Logger → Logger
init_logger config log_file_path tm existing l = record l {
  config = config;
  current = (get_new_log_file_path log_file_path tm, existing);
}

-- The line on std::cout is that of `log_message`, and the logger gets it too.
abbrev console : Bool → Bytes → Bytes → Bytes
console b old text = if b then old ++ text else old

log_to-log :
    (level : LogLevel) (time file function : Bytes) (line : ℕ) (message new_path : Bytes)
    (o : Output)
    → let text = log_message level time file function line message in
      ((log_to level time file function line message new_path o).logger
        ≡ log level new_path text o.logger)
      × ((log_to level time file function line message new_path o).cout
          ≡ console (is_logged level o.logger) o.cout text)
unfolding log_to end_stream write_message log_stream log log_message get_global_log_level
log_to-log level time file function line message new_path o =
    elim (Bool-cases (is_logged level o.logger)) [
      | inl e ↦ rw e (refl, refl)
      | inr e ↦ rw e (refl, refl)
    ]
