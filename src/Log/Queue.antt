-- ===== src/Log/Queue.antt =====
-- The logger of src/log.c as a bounded first-in first-out queue of messages, with the thread that takes from it.
use emme.Prelude.{
  ℕ, ◌-◌, Bool, false, if◌then◌else◌, ltb, leb, ◌&&◌, List, [], ◌∷◌, ◌++◌, Bytes, take, length,
  Timespec,
}
use emme.Config.Types.{LoggingConfig, LogLevel}
use emme.Log.Entry.{LocalTime, LogEntry, level_number, max_log_entry_size}
use emme.Log.File.{LogFile, Action, Moment, append_entry}
use emme.Log.Logger.{Logger, logger_pass, log_message}

-- What happens to a logger: a call of `log_message`, a pass of the thread, or the store of 0 by `log_shutdown`
pub data Event : Type 0 where
  posted : LogLevel → Bytes → Timespec → Event
  passed : Moment → Event
  stopped : Event

unfoldable pub step : LocalTime → Event → Logger → List Action × Logger
unfolding log_message logger_pass
step t (posted level text at) l = ([], log_message level text at l)
step t (passed m) l = logger_pass t m l
step t stopped l = ([], record l { is_running = false })

unfoldable pub run : LocalTime → List Event → Logger → List Action × Logger
unfolding step
run t [] l = ([], l)
run t (e ∷ es) l =
    let (done, l') = step t e l in let (more, l'') = run t es l' in (done ++ more, l'')

-- The specification: a queue that refuses what is too much
pub record Waiting : Type 0 where
  pub queue : List LogEntry
  pub capacity : ℕ
  pub config : LoggingConfig
  pub file : LogFile
  pub accepts : Bool

unfoldable pub step_queue : LocalTime → Event → Waiting → List Action × Waiting
step_queue t (posted level text at) w =
    if w.accepts
      && (leb (level_number w.config.level) (level_number level) && ltb (length w.queue) w.capacity)
    then (
      [],
      record w {
        queue =
            w.queue
            ++ (record {
              level = level;
              message = take (max_log_entry_size - 1) text;
              timestamp = at;
            }
                ∷ []);
      },
    )
    else ([], w)
step_queue t (passed m) w = elim w.queue [
  | [] ↦ ([], w)
  | e ∷ queue ↦
      (let (done, f) = append_entry t w.config m e w.file in
        (done, record w { queue = queue; file = f }))
]
step_queue t stopped w = ([], record w { accepts = false })

unfoldable pub run_queue : LocalTime → List Event → Waiting → List Action × Waiting
unfolding step_queue
run_queue t [] w = ([], w)
run_queue t (e ∷ es) w =
    let (done, w') = step_queue t e w in let (more, w'') = run_queue t es w' in (done ++ more, w'')
