-- ===== src/Log/Started.antt =====
-- The logger that `log_init` of src/log.c starts, and everything that it does from then on.
use emme.Prelude.{
  ◌^◌, ◌<◌, ◌≡◌, refl, true, if◌then◌else◌, ltb, none, some, List, [], length, replicate,
  length-replicate, arith,
}
use emme.Config.Types.{LoggingConfig}
use emme.Log.Entry.{LocalTime}
use emme.Log.File.{LogFile}
use emme.Log.Logger.{Logger, allocated}
use emme.Log.Lifecycle.{InitCalls, log_init, open_file, start_thread}
use emme.Log.Queue.{Event, run, run_queue, Waiting}
use emme.Log.Holds.{Refines}
use emme.Log.Refined.{run-Refines}

-- The empty queue of a configuration, with the log file as it was opened
abbrev pub empty_queue : LoggingConfig → LogFile → Waiting
empty_queue config file = record {
  queue = [];
  capacity = if ltb 0 config.buffer_size then config.buffer_size else 1024;
  config = config;
  file = file;
  accepts = true;
}

abbrev fresh : LoggingConfig → LogFile → Logger
fresh config file = record {
  log_buffer =
      allocated (replicate (if ltb 0 config.buffer_size then config.buffer_size else 1024) none);
  log_head = 0;
  log_tail = 0;
  log_buffer_size = if ltb 0 config.buffer_size then config.buffer_size else 1024;
  current_config = config;
  log_file = file;
  is_running = true;
}

fresh-Refines :
    (config : LoggingConfig) (file : LogFile)
    → config.buffer_size < 2 ^ 64
    → Refines (fresh config file) (empty_queue config file)
fresh-Refines config file b =
    let size = if ltb 0 config.buffer_size then config.buffer_size else 1024 in
    (
      replicate size none,
      record {
        buffer = refl;
        sized = length-replicate size none;
        nonempty = ground arith;
        size_fits = ground arith;
        ordered = omega arith;
        fits = ground arith;
        head_fits = ground arith;
        same_queue = refl;
        same_capacity = refl;
        same_config = refl;
        same_file = refl;
        same_running = refl;
      },
    )

start_fresh :
    (calls : InitCalls) (config : LoggingConfig) (l : Logger)
    → (log_init calls (some config) l).0 ≡ true
    → (log_init calls (some config) l).1 ≡ fresh config (log_init calls (some config) l).1.log_file
unfolding log_init open_file start_thread
start_fresh calls config l h = ground (arith, h)

-- Where `log_init` succeeds, with a buffer size that a size_t can hold, every run of fewer than 2^64 events
-- gives the file and the terminal what the queue of `buffer_size` messages gives them (1024 for a size of 0),
-- empty at first: messages below the configured level, those that find the queue full and those behind the
-- stop are dropped, and all others are written once and in order.
pub log_init-run :
    (t : LocalTime) (calls : InitCalls) (config : LoggingConfig) (l : Logger) (es : List Event)
    → config.buffer_size < 2 ^ 64
    → length es < 2 ^ 64
    → (log_init calls (some config) l).0 ≡ true
    → let l' = (log_init calls (some config) l).1 in
      (run t es l').0 ≡ (run_queue t es (empty_queue config l'.log_file)).0
log_init-run t calls config l es b n h =
    let file = (log_init calls (some config) l).1.log_file in
    rw (start_fresh calls config l h)
      (run-Refines t es (fresh-Refines config file b) (omega (arith, n))).0
