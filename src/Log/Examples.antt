-- ===== src/Log/Examples.antt =====
-- A logger with a buffer of two messages that writes to a file, and the theorems on src/log.c at it.
use emme.Prelude.{
  ◌≡◌, ◌≤◌, ◌<◌, ◌+◌, ◌⊎◌, refl, true, false, none, some, List, [], ◌∷◌, codes, arith, Timespec,
  length, print_decimal, digits_before, ◌/◌,
}
use emme.Config.Types.{LoggingConfig, level_info, level_debug, level_error, plain, config_defaults}
use emme.Log.Entry.{LocalTime, LogEntry, format_message, line_of, print_time, print_millis}
use emme.Log.File.{Moment, file_line, append_entry, rolled_to}
use emme.Log.Logger.{Logger, null_buffer, allocated}
use emme.Log.Lifecycle.{InitCalls, log_init, log_shutdown}
use emme.Log.Queue.{Event, posted, passed, run, run_queue, Waiting}
use emme.Log.Holds.{Refines}
use emme.Log.Started.{log_init-run, empty_queue}
use emme.Log.Drained.{write_all, log_shutdown-drains}
use emme.Log.FileSize.{IsCounted, append_entry-small}

abbrev local : LocalTime
local = record {
  message_time = λ s. codes "2025-01-01 00:00:00";
  backup_time = λ s. codes "20250101000000";
  day_of_year = λ s. s / 86400;
  year = λ s. 125;
}

abbrev at : Timespec
at = record { tv_sec = 7; tv_nsec = 45000000 }

abbrev config : LoggingConfig
config = record {
  file = codes "l";
  level = level_info;
  format = plain;
  buffer_size = 2;
  rollover_size = 60;
  rollover_daily = true;
  appender_file = true;
  appender_console = false;
}

abbrev unused : Logger
unused = record {
  log_buffer = null_buffer;
  log_head = 0;
  log_tail = 0;
  log_buffer_size = 0;
  current_config = config_defaults.logging;
  log_file = record {
    is_open = false;
    last_rollover = at;
    current_file_size = 0;
    bytes_on_disk = 0;
  };
  is_running = false;
}

abbrev good_calls : InitCalls
good_calls = record {
  clock = some at;
  buffer_allocated = true;
  file_opened = true;
  stat_size = some 10;
  thread_created = true;
  thread_start = at;
}

abbrev pass : Moment
pass = record { now = 8; after = at; renamed = true; reopened = true }

-- Four messages of which one is below the level and one finds the buffer full, then two passes
abbrev events : List Event
events =
    posted level_info (codes "a") at
    ∷ posted level_debug (codes "b") at
    ∷ posted level_error (codes "c") at
    ∷ posted level_error (codes "d") at
    ∷ passed pass
    ∷ passed pass
    ∷ []

events-lines :
    (run local events (log_init good_calls (some config) unused).1).0
    ≡ file_line (codes "[2025-01-01 00:00:00.045] [1] a\n")
      ∷ rolled_to (codes "l.20250101000000.bak")
      ∷ file_line (codes "[2025-01-01 00:00:00.045] [3] c\n")
      ∷ []
unfolding run log_init line_of print_time print_millis print_decimal digits_before
events-lines = refl

log_init-run_example :
    let l = (log_init good_calls (some config) unused).1 in
    (run local events l).0 ≡ (run_queue local events (empty_queue config l.log_file)).0
unfolding log_init
log_init-run_example =
    log_init-run local good_calls config unused events (omega arith) (omega arith) refl

-- A logger in which one message waits when it is shut down
abbrev one_entry : LogEntry
one_entry = record { level = level_error; message = codes "c"; timestamp = at }

abbrev holding : Logger
holding = record unused {
  log_buffer = allocated (some one_entry ∷ none ∷ []);
  log_head = 3;
  log_tail = 2;
  log_buffer_size = 2;
  current_config = config;
  log_file = record {
    is_open = true;
    last_rollover = at;
    current_file_size = 10;
    bytes_on_disk = 10;
  };
  is_running = true;
}

abbrev one_waits : Waiting
one_waits = record {
  queue = one_entry ∷ [];
  capacity = 2;
  config = config;
  file = record { is_open = true; last_rollover = at; current_file_size = 10; bytes_on_disk = 10 };
  accepts = true;
}

holding-Refines : Refines holding one_waits
holding-Refines = (
  some one_entry ∷ none ∷ [],
  record {
    buffer = refl;
    sized = refl;
    nonempty = omega arith;
    size_fits = omega arith;
    ordered = omega arith;
    fits = omega arith;
    head_fits = omega arith;
    same_queue = refl;
    same_capacity = refl;
    same_config = refl;
    same_file = refl;
    same_running = refl;
  },
)

log_shutdown-drains_example :
    (l' : Logger) × (log_shutdown local (pass ∷ []) holding
      ≡ some ((write_all local config (pass ∷ []) (one_entry ∷ []) one_waits.file).0, l'))
    × (l'.log_tail ≡ l'.log_head)
    × (l'.is_running ≡ false)
    × (l'.log_buffer ≡ null_buffer)
    × (l'.log_file.is_open ≡ false)
log_shutdown-drains_example =
    log_shutdown-drains local (pass ∷ []) {l = holding} {w = one_waits} holding-Refines refl

append_entry-small_example :
    let text = format_message local config.format one_entry in
    let f' = (append_entry local config pass one_entry one_waits.file).1 in
    IsCounted f'
    × (f'.bytes_on_disk ≤ 10 + length text)
    × ((f'.bytes_on_disk ≤ length text) ⊎ (f'.bytes_on_disk < 60))
append_entry-small_example =
    append_entry-small local config pass one_entry one_waits.file (omega arith) refl refl refl
      (omega arith)
