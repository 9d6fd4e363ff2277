-- ===== src/Log/Entry.antt =====
-- The messages of src/log.c and the lines that the thread makes of them.
use emme.Prelude.{
  ℕ, ◌-◌, ◌/◌, if◌then◌else◌, ltb, ◌++◌, Bytes, codes, take, print_decimal, Timespec,
}
use emme.Config.Types.{
  LogLevel, level_debug, level_info, level_warn, level_error, LogFormat, plain, json,
}

-- What localtime_r and strftime make of a time in seconds: the time of a message, the time in a backup's name,
-- and the day with its year.
pub record LocalTime : Type 0 where
  pub message_time : ℕ → Bytes
  pub backup_time : ℕ → Bytes
  pub day_of_year : ℕ → ℕ
  pub year : ℕ → ℕ

-- `LogEntry`; `message` is its C string.
pub record LogEntry : Type 0 where
  pub level : LogLevel
  pub message : Bytes
  pub timestamp : Timespec

abbrev pub level_number : LogLevel → ℕ
level_number level_debug = 0
level_number level_info = 1
level_number level_warn = 2
level_number level_error = 3

-- MAX_LOG_ENTRY_SIZE, and the size of `formatted_message`
abbrev pub max_log_entry_size : ℕ
max_log_entry_size = 1024

abbrev pub formatted_size : ℕ
formatted_size = 2048

-- `%03ld`
unfoldable pub print_millis : ℕ → Bytes
print_millis n =
    if ltb n 10
    then codes "00" ++ print_decimal n
    else if ltb n 100
    then codes "0" ++ print_decimal n
    else print_decimal n

-- `%s.%03ld` with the time of an entry
unfoldable pub print_time : LocalTime → Timespec → Bytes
print_time t at = t.message_time at.tv_sec ++ (codes "." ++ print_millis (at.tv_nsec / 1000000))

unfoldable pub line_of : LocalTime → LogFormat → LogEntry → Bytes
line_of t plain e =
    codes "["
    ++ (print_time t e.timestamp
        ++ (codes "] ["
            ++ (print_decimal (level_number e.level) ++ (codes "] " ++ (e.message ++ codes "\n")))))
line_of t json e =
    codes "{\"timestamp\": \""
    ++ (print_time t e.timestamp
        ++ (codes "\", \"level\": "
            ++ (print_decimal (level_number e.level)
                ++ (codes ", \"message\": \"" ++ (e.message ++ codes "\"}\n")))))

-- The snprintf into `formatted_message`
unfoldable pub format_message : LocalTime → LogFormat → LogEntry → Bytes
format_message t format e = take (formatted_size - 1) (line_of t format e)
