-- ===== src/Log/Lifecycle.antt =====
-- Start and end of the logger of src/log.c.
use emme.Prelude.{
  ℕ, Bool, true, false, if◌then◌else◌, ltb, ◌==◌, ◌&&◌, Option, none, some, List, length, replicate,
  Timespec,
}
use emme.Config.Types.{LoggingConfig}
use emme.Log.Entry.{LocalTime}
use emme.Log.File.{Action, Moment, LogFile}
use emme.Log.Logger.{Logger, null_buffer, freed_buffer, allocated, logger_thread_func}

-- The calls of `log_init`: the clock, malloc, fopen, the size that stat finds, pthread_create, and the clock
-- again at the start of the thread
pub record InitCalls : Type 0 where
  pub clock : Option Timespec
  pub buffer_allocated : Bool
  pub file_opened : Bool
  pub stat_size : Option ℕ
  pub thread_created : Bool
  pub thread_start : Timespec

abbrev pub size_or_zero : Option ℕ → ℕ
size_or_zero none = 0
size_or_zero (some n) = n

-- The bytes of the file: stat tells the truth where it succeeds.
abbrev pub bytes_found : Option ℕ → LogFile → ℕ
bytes_found none f = f.bytes_on_disk
bytes_found (some n) f = n

-- The last part of `log_init`: the thread is started. Where it is not, `log_buffer` and `log_fp` go on pointing to
-- what was freed and closed, and `logger_running` stays set.
unfoldable pub start_thread : InitCalls → Logger → Bool × Logger
start_thread calls l =
    if calls.thread_created
    then (
      true,
      record l {
        is_running = true;
        log_file = record l.log_file { last_rollover = calls.thread_start };
      },
    )
    else (false, record l { is_running = true; log_buffer = freed_buffer })

unfoldable pub open_file : InitCalls → Logger → Bool × Logger
unfolding start_thread
open_file calls l =
    if l.current_config.appender_file
    then if calls.file_opened
      then start_thread calls (record l {
        log_file = record l.log_file {
          is_open = true;
          current_file_size = size_or_zero calls.stat_size;
          bytes_on_disk = bytes_found calls.stat_size l.log_file;
        };
      })
      else (
        false,
        record l { log_buffer = freed_buffer; log_file = record l.log_file { is_open = false } },
      )
    else start_thread calls l

-- `log_init`: whether it returns 0, and the module's variables; `l` are those before.
unfoldable pub log_init : InitCalls → Option LoggingConfig → Logger → Bool × Logger
unfolding open_file
log_init calls config l = elim calls.clock [
  | none ↦ (false, l)
  | some at ↦
      (let l1 = record l { log_file = record l.log_file { last_rollover = at } } in
        elim config [
          | none ↦ (false, l1)
          | some c ↦
              (let size = if ltb 0 c.buffer_size then c.buffer_size else 1024 in
                let l2 = record l1 { current_config = c; log_buffer_size = size } in
                if c.appender_file && (length c.file == 0)
                then (false, l1)
                else if calls.buffer_allocated
                then open_file calls (record l2 {
                  log_buffer = allocated (replicate size none);
                  log_head = 0;
                  log_tail = 0;
                })
                else (false, record l2 { log_buffer = null_buffer }))
        ])
]

-- `log_shutdown` with the passes that the thread makes until pthread_join returns
unfoldable pub log_shutdown : LocalTime → List Moment → Logger → Option (List Action × Logger)
unfolding logger_thread_func
log_shutdown t ms l = elim (logger_thread_func t ms (record l { is_running = false })) [
  | none ↦ none
  | some (done, l') ↦ some (
    done,
    record l' { log_buffer = null_buffer; log_file = record l'.log_file { is_open = false } },
  )
]
