-- ===== src/Log/Refined.antt =====
-- The ring buffer of src/log.c implements the queue: every run of a logger does what the queue does.
use emme.Prelude.{
  inl, inr, ◌⊎◌, suc, ◌+◌, ◌-◌, ◌%◌, ◌^◌, ◌<◌, ◌≤◌, ◌≡◌, refl, sym, ap, ◌∙◌, true, false, ◌==◌,
  Option, none, some, List, [], ◌∷◌, ◌++◌, map, Bytes, drop, length, get_or, Timespec, arith,
  cells_from, cells_from-front,
}
use mathlib.Core.Path.{ap₂}
use native.Mathlib.Nat.{mod-add-mod, mod-lt, mod-eq_of_lt, add-zero}
use emme.Config.Types.{LogLevel}
use emme.Log.Entry.{LocalTime, LogEntry}
use emme.Log.File.{Action, Moment, append_entry}
use emme.Log.Logger.{Logger, logger_pass, take_entry, log_message}
use emme.Log.Queue.{Event, posted, passed, stopped, step, run, Waiting, step_queue, run_queue}
use emme.Log.Holds.{Holds, Refines, Holds-length, posted-Refines}

-- The oldest message of a queue that is not empty
oldest :
    {cells : List (Option LogEntry)} {l : Logger} {w : Waiting}
    → Holds cells l w
    → (e : LogEntry) (es : List LogEntry) → w.queue ≡ e ∷ es
    → (get_or cells (l.log_tail % l.log_buffer_size) none ≡ some e)
      × (cells_from cells l.log_buffer_size
            ((l.log_tail + 1) % l.log_buffer_size)
            0
            (l.log_head - (l.log_tail + 1))
          ≡ map some es)
      × (l.log_tail < l.log_head)
oldest {cells} {l} {w} h e es q =
    let size = l.log_buffer_size in
    let first = l.log_tail % size in
    let left = l.log_head - (l.log_tail + 1) in
    let some_left : suc (length es) ≡ l.log_head - l.log_tail =
      sym (ap length q) ∙ Holds-length h in
    let count : suc left ≡ l.log_head - l.log_tail = omega (arith, some_left) in
    let split : get_or cells ((first + 0) % size) none ∷ cells_from cells size first 1 left
        ≡ some e ∷ map some es =
      ap (cells_from cells size first 0) count ∙ h.same_queue ∙ ap (map some) q in
    let at : (first + 0) % size ≡ first =
      ap (λ k. k % size) (add-zero first) ∙ mod-eq_of_lt (mod-lt l.log_tail h.nonempty) in
    let next : (l.log_tail + 1) % size ≡ (first + 1) % size = rw mod-add-mod refl in
    (
      ap (λ i. get_or cells i none) (sym at) ∙ ap (λ c. get_or c 0 none) split,
      ap (λ i. cells_from cells size i 0 left) next
          ∙ cells_from-front cells size first 0 left
          ∙ ap (drop 1) split,
      omega (arith, some_left),
    )

pub empty_iff :
    {cells : List (Option LogEntry)} {l : Logger} {w : Waiting}
    → Holds cells l w
    → w.queue ≡ []
    → l.log_tail ≡ l.log_head
empty_iff h e = let n = Holds-length h in let o = h.ordered in omega (arith, ap length e)

-- What a pass does with the oldest message
entry_taken : LocalTime → Moment → LogEntry → Waiting → Logger → List Action × Logger
entry_taken t m e w l =
    let r = append_entry t w.config m e w.file in
    (r.0, record l { log_file = r.1; log_tail = l.log_tail + 1 })

pass_of :
    (t : LocalTime) (m : Moment) {cells : List (Option LogEntry)} {l : Logger} {w : Waiting}
    → Holds cells l w
    → (e : LogEntry) (es : List LogEntry) → w.queue ≡ e ∷ es
    → logger_pass t m l ≡ entry_taken t m e w l
unfolding logger_pass take_entry entry_taken
pass_of t m {cells} {l} {w} h e es q =
    let (first, rest, some_left) = oldest h e es q in
    let tail : (l.log_tail + 1) % 2 ^ 64 ≡ l.log_tail + 1 =
      mod-eq_of_lt (omega (arith, h.head_fits)) in
    let busy : (l.log_tail == l.log_head) ≡ false = ground (arith, some_left) in
    rw (busy, h.buffer, first, tail, h.same_config, h.same_file) refl

entry_taken-Refines :
    (t : LocalTime) (m : Moment) {cells : List (Option LogEntry)} {l : Logger} {w : Waiting}
    → Holds cells l w
    → (e : LogEntry) (es : List LogEntry) → w.queue ≡ e ∷ es
    → Refines
        (entry_taken t m e w l).1
        (record w { queue = es; file = (append_entry t w.config m e w.file).1 })
unfolding entry_taken
entry_taken-Refines t m {cells} {l} {w} h e es q =
    let (first, rest, some_left) = oldest h e es q in
    (
      cells,
      record {
        buffer = h.buffer;
        sized = h.sized;
        nonempty = h.nonempty;
        size_fits = h.size_fits;
        ordered = omega (arith, some_left);
        fits = omega (arith, h.fits);
        head_fits = h.head_fits;
        same_queue = rest;
        same_capacity = h.same_capacity;
        same_config = h.same_config;
        same_file = refl;
        same_running = h.same_running;
      },
    )

List-cases : {A : Type 0} (xs : List A) → (xs ≡ []) ⊎ ((x : A) × (ys : List A) × (xs ≡ x ∷ ys))
List-cases [] = inl refl
List-cases (x ∷ xs) = inr (x, xs, refl)

-- A pass over a buffer that is not empty
pub pass_busy :
    (t : LocalTime) (m : Moment) {l : Logger} {w : Waiting}
    → Refines l w
    → (e : LogEntry) (es : List LogEntry) → w.queue ≡ e ∷ es
    → let r = append_entry t w.config m e w.file in
      ((logger_pass t m l).0 ≡ r.0)
      × Refines (logger_pass t m l).1 (record w { queue = es; file = r.1 })
      × (l.log_tail < l.log_head)
pass_busy t m (cells, h) e es q =
    rw (pass_of t m h e es q)
      (unfold entry_taken in (refl, entry_taken-Refines t m h e es q, (oldest h e es q).2))

idle_step :
    (t : LocalTime) (m : Moment) (w : Waiting) → w.queue ≡ [] → step_queue t (passed m) w ≡ ([], w)
unfolding step_queue
idle_step t m w e = ground (arith, e)

busy_step :
    (t : LocalTime) (m : Moment) (w : Waiting) (e : LogEntry) (es : List LogEntry)
    → w.queue ≡ e ∷ es
    → step_queue t (passed m) w
      ≡ (let r = append_entry t w.config m e w.file in (r.0, record w { queue = es; file = r.1 }))
unfolding step_queue
busy_step t m w e es q = ground (arith, q)

-- One pass of the thread does to the file what the queue does, and takes the same message.
pub passed-Refines :
    (t : LocalTime) (m : Moment) {l : Logger} {w : Waiting}
    → Refines l w
    → let r = logger_pass t m l in
      let s = step_queue t (passed m) w in
      (r.0 ≡ s.0) × Refines r.1 s.1 × (r.1.log_head ≡ l.log_head)
passed-Refines t m {l} {w} (cells, h) = elim (List-cases w.queue) [
  | inl e ↦
      unfold logger_pass in
      (let idle : (l.log_tail == l.log_head) ≡ true = ground (arith, empty_iff h e) in
        rw (idle_step t m w e, idle) (refl, (cells, h), refl))
  | inr (e, es, q) ↦
      rw (pass_of t m h e es q, busy_step t m w e es q)
        (unfold entry_taken in (refl, entry_taken-Refines t m h e es q, refl))
]

posted_silent :
    (t : LocalTime) (level : LogLevel) (text : Bytes) (at : Timespec) (w : Waiting)
    → (step_queue t (posted level text at) w).0 ≡ []
unfolding step_queue
posted_silent t level text at w = ground arith

posted_head :
    (level : LogLevel) (text : Bytes) (at : Timespec) (l : Logger)
    → l.log_head + 1 < 2 ^ 64
    → (log_message level text at l).log_head ≤ l.log_head + 1
unfolding log_message
posted_head level text at l room = ground (arith, mod-eq_of_lt room)

pub stopped-Refines :
    (t : LocalTime) {l : Logger} {w : Waiting}
    → Refines l w
    → Refines (record l { is_running = false }) (step_queue t stopped w).1
unfolding step_queue
stopped-Refines t (cells, h) = (
  cells,
  record {
    buffer = h.buffer;
    sized = h.sized;
    nonempty = h.nonempty;
    size_fits = h.size_fits;
    ordered = h.ordered;
    fits = h.fits;
    head_fits = h.head_fits;
    same_queue = h.same_queue;
    same_capacity = h.same_capacity;
    same_config = h.same_config;
    same_file = h.same_file;
    same_running = refl;
  },
)

step-Refines :
    (t : LocalTime) (e : Event) {l : Logger} {w : Waiting}
    → Refines l w
    → l.log_head + 1 < 2 ^ 64
    → let r = step t e l in
      let s = step_queue t e w in (r.0 ≡ s.0) × Refines r.1 s.1 × (r.1.log_head ≤ l.log_head + 1)
unfolding step
step-Refines t (posted level text at) {l} {w} h room = (
  sym (posted_silent t level text at w),
  posted-Refines t level text at h room,
  posted_head level text at l room,
)
step-Refines t (passed m) {l} {w} h room =
    let (same, held, head) = passed-Refines t m h in (same, held, omega (arith, head))
step-Refines t stopped {l} {w} h room =
    (unfold step_queue in refl, stopped-Refines t h, omega arith)

-- No run of calls of `log_message` and passes of the thread, fewer than the head has left to 2^64, tells a ring
-- buffer from the bounded queue that it holds: the file and the terminal get the same lines in the same order,
-- and the buffer goes on holding the queue.
pub run-Refines :
    (t : LocalTime) (es : List Event) {l : Logger} {w : Waiting}
    → Refines l w
    → l.log_head + length es < 2 ^ 64
    → let r = run t es l in let s = run_queue t es w in (r.0 ≡ s.0) × Refines r.1 s.1
unfolding run run_queue
run-Refines t [] h room = (refl, h)
run-Refines t (e ∷ es) {l} {w} h room =
    let (same, held, head) = step-Refines t e h (omega (arith, room)) in
    let (more, held') = run-Refines t es held (omega (arith, head, room)) in
    (ap₂ ◌++◌ same more, held')
