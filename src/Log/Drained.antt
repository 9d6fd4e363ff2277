-- ===== src/Log/Drained.antt =====
-- The end of the logger of src/log.c: the thread writes what waits, then `log_shutdown` frees the buffer.
use emme.Prelude.{◌≡◌, refl, ◌∙◌, false, ◌==◌, Option, some, List, [], ◌∷◌, ◌++◌, length, arith}
use emme.Config.Types.{LoggingConfig}
use emme.Log.Entry.{LocalTime, LogEntry}
use emme.Log.File.{LogFile, Action, Moment, append_entry}
use emme.Log.Logger.{Logger, null_buffer, logger_pass, logger_thread_func}
use emme.Log.Lifecycle.{log_shutdown}
use emme.Log.Queue.{Waiting, step_queue}
use emme.Log.Holds.{Refines}
use emme.Log.Refined.{stopped-Refines, empty_iff, pass_busy}

-- One entry after the other, each in its own pass
unfoldable pub write_all :
    LocalTime → LoggingConfig → List Moment → List LogEntry → LogFile → List Action × LogFile
write_all t config [] es f = ([], f)
write_all t config (m ∷ ms) [] f = ([], f)
write_all t config (m ∷ ms) (e ∷ es) f =
    let (done, f') = append_entry t config m e f in
    let (more, f'') = write_all t config ms es f' in (done ++ more, f'')

-- A thread that wrote `actions` and ended with nothing left
abbrev pub Ended : List Action → Option (List Action × Logger) → Type 0
Ended actions r =
    (l : Logger) × (r ≡ some (actions, l)) × (l.log_tail ≡ l.log_head) × (l.is_running ≡ false)

Ended-now :
    (t : LocalTime) {l : Logger} {w : Waiting}
    → Refines l w
    → w.queue ≡ []
    → w.accepts ≡ false
    → Ended [] (logger_thread_func t [] l)
unfolding logger_thread_func
Ended-now t {l} {w} (cells, h) e stop =
    let r = h.same_running ∙ stop in let z = empty_iff h e in (l, ground (arith, r, z), z, r)

one_more :
    (t : LocalTime) (m : Moment) (ms : List Moment) (l : Logger) (more : List Action)
    → (l.log_head == l.log_tail) ≡ false
    → Ended more (logger_thread_func t ms (logger_pass t m l).1)
    → Ended ((logger_pass t m l).0 ++ more) (logger_thread_func t (m ∷ ms) l)
unfolding logger_thread_func
one_more t m ms l more busy (l', e, z, r) = (l', ground (arith, busy, e), z, r)

thread-ends :
    (t : LocalTime) (ms : List Moment) (es : List LogEntry) {l : Logger} {w : Waiting}
    → Refines l w
    → w.queue ≡ es
    → length ms ≡ length es
    → w.accepts ≡ false
    → Ended (write_all t w.config ms es w.file).0 (logger_thread_func t ms l)
unfolding write_all
thread-ends t [] [] h e n stop = Ended-now t h e stop
thread-ends t [] (x ∷ es) h e n stop = absurd (omega (arith, n))
thread-ends t (m ∷ ms) [] h e n stop = absurd (omega (arith, n))
thread-ends t (m ∷ ms) (x ∷ es) {l} {w} (cells, h) e n stop =
    let (same, held, some_left) = pass_busy t m (cells, h) x es e in
    let rest = thread-ends t ms es held refl (omega (arith, n)) stop in
    let more = (write_all t w.config ms es (append_entry t w.config m x w.file).1).0 in
    let all = one_more t m ms l more (ground (arith, some_left)) rest in rw (← same) all

-- `log_shutdown` of a logger that holds a queue ends with the pass of the thread that takes the last message:
-- every waiting message is written once and in order, none is left, the buffer is freed, the file is closed
-- and the logger does not run.
pub log_shutdown-drains :
    (t : LocalTime) (ms : List Moment) {l : Logger} {w : Waiting}
    → Refines l w
    → length ms ≡ length w.queue
    → (l' : Logger) × (log_shutdown t ms l ≡ some ((write_all t w.config ms w.queue w.file).0, l'))
      × (l'.log_tail ≡ l'.log_head)
      × (l'.is_running ≡ false)
      × (l'.log_buffer ≡ null_buffer)
      × (l'.log_file.is_open ≡ false)
unfolding log_shutdown step_queue
log_shutdown-drains t ms {l} {w} h n =
    let held = stopped-Refines t h in
    let (l', e, z, r) = thread-ends t ms w.queue held refl n refl in
    (
      record l' { log_buffer = null_buffer; log_file = record l'.log_file { is_open = false } },
      rw (log_shutdown, e) refl,
      z,
      r,
      refl,
      refl,
    )
