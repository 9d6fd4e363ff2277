-- ===== src/Log/File.antt =====
-- The log file of src/log.c: what the thread writes, and the rollover.
use emme.Prelude.{
  ℕ, ◌+◌, ◌%◌, ◌^◌, Bool, not, if◌then◌else◌, ltb, leb, ◌==◌, ◌&&◌, ◌||◌, List, [], ◌∷◌, ◌++◌,
  Bytes, codes, take, length, Timespec,
}
use emme.Config.Types.{LoggingConfig}
use emme.Log.Entry.{LocalTime, LogEntry, format_message}

-- The log file of the logger: whether it is open, when it was last rolled over, the size that the logger counts,
-- and the bytes that the file of the configured name really has
pub record LogFile : Type 0 where
  pub is_open : Bool
  pub last_rollover : Timespec
  pub current_file_size : ℕ
  pub bytes_on_disk : ℕ

-- What happens to the file and to the terminal; a rollover names the backup.
pub data Action : Type 0 where
  file_line console_line rolled_to : Bytes → Action

-- The clock and the file system in one pass of the thread: `time` for the day, the clock behind a rollover,
-- whether rename succeeds, which the source does not look at, and whether the file opens again
pub record Moment : Type 0 where
  pub now : ℕ
  pub after : Timespec
  pub renamed : Bool
  pub reopened : Bool

-- `rollover_log_file`; the name of the backup has 511 bytes at most. Where rename fails, fopen("a") opens the file
-- as it is, and lines go on behind its bytes.
unfoldable pub rollover_log_file :
    LocalTime → LoggingConfig → Moment → LogFile → List Action × LogFile
rollover_log_file t config m f =
    if config.appender_file
    then (
      if m.renamed
          then rolled_to (
              take 511 (
                config.file
                ++ (codes "." ++ (t.backup_time f.last_rollover.tv_sec ++ codes ".bak"))))
            ∷ []
          else [],
      record {
        is_open = m.reopened;
        last_rollover = m.after;
        current_file_size = 0;
        bytes_on_disk = if m.renamed then 0 else f.bytes_on_disk;
      },
    )
    else ([], f)

-- The two reasons for a rollover
unfoldable pub is_too_large : LoggingConfig → Bytes → LogFile → Bool
is_too_large config text f =
    ltb 0 config.rollover_size
    && leb config.rollover_size ((f.current_file_size + length text) % 2 ^ 64)

unfoldable pub is_other_day : LocalTime → LoggingConfig → ℕ → LogFile → Bool
is_other_day t config now f =
    config.rollover_daily
    && (not (t.day_of_year now == t.day_of_year f.last_rollover.tv_sec)
        || not (t.year now == t.year f.last_rollover.tv_sec))

-- `check_rollover`
unfoldable pub check_rollover :
    LocalTime → LoggingConfig → Moment → Bytes → LogFile → List Action × LogFile
unfolding rollover_log_file is_too_large is_other_day
check_rollover t config m text f =
    if config.appender_file && (is_too_large config text f || is_other_day t config m.now f)
    then rollover_log_file t config m f
    else ([], f)

-- `if (log_fp) { ... }` behind a check that did `done`; the write is taken to succeed.
unfoldable pub put_line : Bytes → List Action × LogFile → List Action × LogFile
put_line text (done, f) =
    if f.is_open
    then (
      done ++ (file_line text ∷ []),
      record f {
        current_file_size = (f.current_file_size + length text) % 2 ^ 64;
        bytes_on_disk = f.bytes_on_disk + length text;
      },
    )
    else (done, f)

-- The two appenders of the thread
unfoldable pub append_entry :
    LocalTime → LoggingConfig → Moment → LogEntry → LogFile → List Action × LogFile
unfolding format_message check_rollover put_line
append_entry t config m e f =
    let text = format_message t config.format e in
    let (done, f') =
      if config.appender_file then put_line text (check_rollover t config m text f) else ([], f) in
    (if config.appender_console then done ++ (console_line text ∷ []) else done, f')
