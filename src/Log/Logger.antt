-- ===== src/Log/Logger.antt =====
-- The ring buffer of src/log.c: `log_message` writes it, the thread of `logger_thread_func` reads it.
use emme.Prelude.{
  ℕ, ◌+◌, ◌-◌, ◌%◌, ◌^◌, Bool, true, false, not, if◌then◌else◌, ltb, leb, ◌==◌, ◌||◌, Option, none,
  some, List, [], ◌∷◌, ◌++◌, Bytes, take, set, get_or, Timespec,
}
use emme.Config.Types.{LoggingConfig, LogLevel}
use emme.Log.Entry.{LocalTime, LogEntry, level_number, max_log_entry_size}
use emme.Log.File.{LogFile, Action, Moment, append_entry}

-- `log_buffer`: a null pointer, memory that was freed, or an array, whose cells hold nothing at first
pub data Buffer : Type 0 where
  null_buffer : Buffer
  freed_buffer : Buffer
  allocated : List (Option LogEntry) → Buffer

abbrev pub cells_of : Buffer → List (Option LogEntry)
cells_of null_buffer = []
cells_of freed_buffer = []
cells_of (allocated cells) = cells

abbrev pub is_null : Buffer → Bool
is_null null_buffer = true
is_null freed_buffer = false
is_null (allocated cells) = false

-- A write through the pointer; one to freed memory is undefined in C and leaves no trace here.
abbrev pub write_cell : Buffer → ℕ → LogEntry → Buffer
write_cell null_buffer i e = null_buffer
write_cell freed_buffer i e = freed_buffer
write_cell (allocated cells) i e = allocated (set cells i (some e))

-- The static variables of the module
pub record Logger : Type 0 where
  pub log_buffer : Buffer
  pub log_head : ℕ
  pub log_tail : ℕ
  pub log_buffer_size : ℕ
  pub current_config : LoggingConfig
  pub log_file : LogFile
  pub is_running : Bool

-- The rest of a pass of the thread's loop, where the buffer is not empty. A cell that was never written cannot
-- be read as an entry.
unfoldable pub take_entry : LocalTime → Moment → Option LogEntry → Logger → List Action × Logger
unfolding append_entry
take_entry t m none l = ([], record l { log_tail = (l.log_tail + 1) % 2 ^ 64 })
take_entry t m (some e) l =
    let (done, f) = append_entry t l.current_config m e l.log_file in
    (done, record l { log_file = f; log_tail = (l.log_tail + 1) % 2 ^ 64 })

-- One pass of the loop of `logger_thread_func`
unfoldable pub logger_pass : LocalTime → Moment → Logger → List Action × Logger
unfolding take_entry
logger_pass t m l =
    if l.log_tail == l.log_head
    then ([], l)
    else take_entry t m (get_or (cells_of l.log_buffer) (l.log_tail % l.log_buffer_size) none) l

-- `logger_thread_func` on the passes that it makes: `none` while it has not ended
unfoldable pub logger_thread_func : LocalTime → List Moment → Logger → Option (List Action × Logger)
unfolding logger_pass
logger_thread_func t [] l =
    if l.is_running || not (l.log_head == l.log_tail) then none else some ([], l)
logger_thread_func t (m ∷ ms) l =
    let (done, l') = logger_pass t m l in
    let rest = logger_thread_func t ms l' in
    if l.is_running || not (l.log_head == l.log_tail)
    then elim rest [ none ↦ none | some (more, l'') ↦ some (done ++ more, l'') ]
    else some ([], l)

-- `log_message` at a time `at`; `text` is what the format and its arguments expand to.
unfoldable pub log_message : LogLevel → Bytes → Timespec → Logger → Logger
log_message level text at l =
    if is_null l.log_buffer || not l.is_running
    then l
    else if ltb (level_number level) (level_number l.current_config.level)
    then l
    else if leb l.log_buffer_size ((l.log_head + 2 ^ 64 - l.log_tail) % 2 ^ 64)
    then l
    else record l {
      log_buffer =
          write_cell l.log_buffer (l.log_head % l.log_buffer_size) (record {
            level = level;
            message = take (max_log_entry_size - 1) text;
            timestamp = at;
          });
      log_head = (l.log_head + 1) % 2 ^ 64;
    }
