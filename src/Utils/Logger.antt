-- ===== src/Utils/Logger.antt =====
-- Logger (src/utils/logger.cpp, src/utils/logger.hpp). A file that another process removes, and files
-- of others in the directory, are left out; so are the copies on std::cout and std::cerr.
pub mod Thread
pub mod Orderly
pub mod Names
pub mod Written
use chatroom_server.Prelude.{
  ℕ, ◌-◌, ◌++◌, Bool, ◌||◌, Bytes, bytes, bytes_eq, decimal, length, take, drop, List, [], ◌∷◌,
  if◌then◌else◌, leb, ◌==◌,
}

pub data LogLevel : Type 0 where
  debug info warn error fatal : LogLevel

abbrev pub rank : LogLevel → ℕ
rank debug = 0
rank info = 1
rank warn = 2
rank error = 3
rank fatal = 4

unfoldable pub get_level_str : LogLevel → Bytes
get_level_str debug = bytes "DEBUG"
get_level_str info = bytes "INFO"
get_level_str warn = bytes "WARN"
get_level_str error = bytes "ERROR"
get_level_str fatal = bytes "FATAL"

-- ESC and the colour.
unfoldable pub get_level_color : LogLevel → Bytes
get_level_color debug = 27 ∷ bytes "[0m"
get_level_color info = 27 ∷ bytes "[32m"
get_level_color warn = 27 ∷ bytes "[33m"
get_level_color error = 27 ∷ bytes "[31m"
get_level_color fatal = 27 ∷ bytes "[31m"

-- The loop of `getFileName`, with the pointer it would return so far.
unfoldable pub file_name_from : Bytes → Bytes → Bytes
file_name_from file_name [] = file_name
file_name_from file_name (p ∷ rest) =
    let after = file_name_from rest rest in
    let same = file_name_from file_name rest in if (p == b'/') || (p == b'\\') then after else same

unfoldable pub get_file_name : Bytes → Bytes
get_file_name file_path = file_name_from file_path file_path

pub record LogConfig : Type 0 where
  pub max_file_size : ℕ
  pub max_backup_files : ℕ
  pub async_logging : Bool

-- The current file, and the other files of the log directory, those written to last first, each
-- with its contents.
pub record Logger : Type 0 where
  pub config : LogConfig
  pub global_log_level : LogLevel
  pub current : Bytes × Bytes
  pub backups : List (Bytes × Bytes)
  pub log_queue : List Bytes

-- The line of a message: `time` is that of `getCurrentTime`.
unfoldable pub log_message : LogLevel → Bytes → Bytes → Bytes → ℕ → Bytes → Bytes
log_message level time file function line message =
    get_level_color level
    ++ bytes "["
    ++ get_level_str level
    ++ bytes "] "
    ++ time
    ++ bytes " "
    ++ get_file_name file
    ++ bytes ":"
    ++ decimal line
    ++ bytes " "
    ++ function
    ++ bytes ": "
    ++ (27 ∷ bytes "[0m")
    ++ message
    ++ bytes "\n"

-- What a file has already, and the files without it.
unfoldable pub file_text : Bytes → List (Bytes × Bytes) → Bytes
file_text path [] = []
file_text path (f ∷ fs) = let text = file_text path fs in if bytes_eq path f.0 then f.1 else text

unfoldable pub other_files : Bytes → List (Bytes × Bytes) → List (Bytes × Bytes)
other_files path [] = []
other_files path (f ∷ fs) =
    let others = other_files path fs in if bytes_eq path f.0 then others else f ∷ others

-- `openCurrentLogFile` with `std::ios::app`: a file of that name that is there goes on.
unfoldable pub open_log_file : Bytes → Logger → Logger
open_log_file path l = if bytes_eq path l.current.0 then l else record l {
  current = (path, file_text path l.backups);
  backups = l.current ∷ other_files path l.backups;
}

-- `purgeExpiredLogFiles`: the files that were written to last stay. The current file counts as one
-- of these, also where an older file was opened again.
unfoldable pub purge_expired_log_files : Logger → Logger
purge_expired_log_files l =
    if l.config.max_backup_files == 0
    then l
    else record l { backups = take (l.config.max_backup_files - 1) l.backups }

-- `new_path` is that of `getNewLogFilePath`.
unfoldable pub rotate_log_file_if_needed : Bytes → Logger → Logger
rotate_log_file_if_needed new_path l =
    if leb l.config.max_file_size (length l.current.1)
    then purge_expired_log_files (open_log_file new_path l)
    else l

unfoldable pub append_to_file : Bytes → Logger → Logger
append_to_file message l = record l { current = (l.current.0, l.current.1 ++ message) }

unfoldable pub write_log_to_file : Bytes → Bytes → Logger → Logger
write_log_to_file new_path message l = append_to_file message (rotate_log_file_if_needed new_path l)

unfoldable pub enqueue_log_message : Bytes → Bytes → Logger → Logger
enqueue_log_message new_path message l =
    if l.config.async_logging
    then record l { log_queue = l.log_queue ++ message ∷ [] }
    else write_log_to_file new_path message l

unfoldable pub concat : List Bytes → Bytes
concat [] = []
concat (m ∷ ms) = m ++ concat ms

-- `LogStream`: constructed, filled with one message and destroyed.
unfoldable pub log : LogLevel → Bytes → Bytes → Logger → Logger
log level new_path text l =
    if leb (rank l.global_log_level) (rank level) then enqueue_log_message new_path text l else l
