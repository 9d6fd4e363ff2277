-- ===== src/Log/Holds.antt =====
-- When the ring buffer of src/log.c holds a queue of messages, and that `log_message` keeps it so.
use emme.Prelude.{
  inl, inr, suc, ◌+◌, ◌-◌, ◌%◌, ◌^◌, ◌<◌, ◌≤◌, ◌≡◌, refl, sym, ap, ◌∙◌, Bool, true, if◌then◌else◌,
  ltb, leb, ◌&&◌, not, Option, some, List, [], ◌∷◌, ◌++◌, map, Bytes, take, length, set, Timespec,
  arith, cells_from, cells_from-set, length-cells_from, length-set, Bool-cases,
}
use native.Mathlib.Nat.{mod-add-mod, mod-lt, mod-eq_of_lt}
use emme.Config.Types.{LogLevel}
use emme.Log.Entry.{LocalTime, LogEntry, level_number, max_log_entry_size}
use emme.Log.Logger.{Logger, allocated, log_message, write_cell}
use emme.Log.Queue.{posted, Waiting, step_queue}

-- The cells between tail and head
abbrev pub waiting_cells : List (Option LogEntry) → Logger → List (Option LogEntry)
waiting_cells cells l =
    cells_from cells l.log_buffer_size (l.log_tail % l.log_buffer_size) 0 (l.log_head - l.log_tail)

pub record Holds (cells : List (Option LogEntry)) (l : Logger) (w : Waiting) : Type 0 where
  pub buffer : l.log_buffer ≡ allocated cells
  pub sized : length cells ≡ l.log_buffer_size
  pub nonempty : 0 < l.log_buffer_size
  pub size_fits : l.log_buffer_size < 2 ^ 64
  pub ordered : l.log_tail ≤ l.log_head
  pub fits : l.log_head ≤ l.log_tail + l.log_buffer_size
  pub head_fits : l.log_head < 2 ^ 64
  pub same_queue : waiting_cells cells l ≡ map some w.queue
  pub same_capacity : l.log_buffer_size ≡ w.capacity
  pub same_config : l.current_config ≡ w.config
  pub same_file : l.log_file ≡ w.file
  pub same_running : l.is_running ≡ w.accepts

abbrev pub Refines : Logger → Waiting → Type 0
Refines l w = (cells : List (Option LogEntry)) × Holds cells l w

length-map-some : {A : Type 0} (xs : List A) → length (map some xs) ≡ length xs
length-map-some [] = refl
length-map-some (x ∷ xs) = ap suc (length-map-some xs)

map-some-snoc :
    {A : Type 0} (xs : List A) (x : A) → map some (xs ++ (x ∷ [])) ≡ map some xs ++ (some x ∷ [])
map-some-snoc [] x = refl
map-some-snoc (y ∷ xs) x = ap (λ zs. some y ∷ zs) (map-some-snoc xs x)

-- The number of messages that wait
pub Holds-length :
    {cells : List (Option LogEntry)} {l : Logger} {w : Waiting}
    → Holds cells l w
    → length w.queue ≡ l.log_head - l.log_tail
Holds-length {cells} {l} {w} h =
    sym (length-map-some w.queue)
    ∙ ap length (sym h.same_queue)
    ∙ length-cells_from cells l.log_buffer_size (l.log_tail % l.log_buffer_size) 0
        (l.log_head - l.log_tail)

-- A message that is kept
stored : (e : LogEntry) → Logger → Logger
stored e l = record l {
  log_buffer = write_cell l.log_buffer (l.log_head % l.log_buffer_size) e;
  log_head = (l.log_head + 1) % 2 ^ 64;
}

stored-Refines :
    (e : LogEntry) {cells : List (Option LogEntry)} {l : Logger} {w : Waiting}
    → Holds cells l w
    → l.log_head + 1 < 2 ^ 64
    → l.log_head < l.log_tail + l.log_buffer_size
    → Refines (stored e l) (record w { queue = w.queue ++ (e ∷ []) })
unfolding stored
stored-Refines e {cells} {l} {w} h room free =
    let size = l.log_buffer_size in
    let i = l.log_head % size in
    let n = l.log_head - l.log_tail in
    let head : (l.log_head + 1) % 2 ^ 64 ≡ l.log_head + 1 = mod-eq_of_lt room in
    let count : (l.log_head + 1) % 2 ^ 64 - l.log_tail ≡ suc n =
      rw head (omega (arith, h.ordered)) in
    let at : i ≡ (l.log_tail % size + (0 + n)) % size =
      rw mod-add-mod (ap (λ k. k % size) (omega (arith, h.ordered))) in
    (
      set cells i (some e),
      record {
        buffer = ap (λ b. write_cell b i e) h.buffer;
        sized = length-set cells i (some e) ∙ h.sized;
        nonempty = h.nonempty;
        size_fits = h.size_fits;
        ordered = rw head (omega (arith, h.ordered));
        fits = rw head (omega (arith, free));
        head_fits = rw head room;
        same_queue =
            ap (cells_from (set cells i (some e)) size (l.log_tail % size) 0) count
            ∙ cells_from-set cells size (l.log_tail % size) 0 n i (some e) h.sized
                (mod-lt l.log_tail h.nonempty) (omega (arith, free, h.ordered)) at
            ∙ ap (λ q. q ++ (some e ∷ [])) h.same_queue
            ∙ sym (map-some-snoc w.queue e);
        same_capacity = h.same_capacity;
        same_config = h.same_config;
        same_file = h.same_file;
        same_running = h.same_running;
      },
    )

message_of : LogLevel → Bytes → Timespec → LogEntry
message_of level text at = record {
  level = level;
  message = take (max_log_entry_size - 1) text;
  timestamp = at;
}

takes : LogLevel → Waiting → Bool
takes level w =
    w.accepts
    && (leb (level_number w.config.level) (level_number level) && ltb (length w.queue) w.capacity)

not_full :
    {cells : List (Option LogEntry)} {l : Logger} {w : Waiting}
    → Holds cells l w
    → ltb (length w.queue) w.capacity
      ≡ not (leb l.log_buffer_size ((l.log_head + 2 ^ 64 - l.log_tail) % 2 ^ 64))
not_full {cells} {l} {w} h =
    let z = h.same_capacity in
    let o = h.ordered in let f = h.head_fits in rw (Holds-length h) (ground arith)

takes_of :
    (level : LogLevel) (text : Bytes) (at : Timespec) {cells : List (Option LogEntry)} {l : Logger}
    {w : Waiting}
    → Holds cells l w
    → log_message level text at l
      ≡ (if takes level w then stored (message_of level text at) l else l)
unfolding log_message stored takes message_of
takes_of level text at {cells} {l} {w} h =
    rw (not_full h, h.buffer, ← h.same_config, ← h.same_running) (ground arith)

room_left :
    (level : LogLevel) {cells : List (Option LogEntry)} {l : Logger} {w : Waiting}
    → Holds cells l w
    → takes level w ≡ true
    → l.log_head < l.log_tail + l.log_buffer_size
unfolding takes
room_left level {cells} {l} {w} h e =
    let n = Holds-length h in let z = h.same_capacity in let o = h.ordered in ground (arith, e)

pub posted-Refines :
    (t : LocalTime) (level : LogLevel) (text : Bytes) (at : Timespec) {l : Logger} {w : Waiting}
    → Refines l w
    → l.log_head + 1 < 2 ^ 64
    → Refines (log_message level text at l) (step_queue t (posted level text at) w).1
unfolding step_queue takes message_of
posted-Refines t level text at {l} {w} (cells, h) room = elim (Bool-cases (takes level w)) [
  | inl e ↦
      rw (takes_of level text at h, e)
        (stored-Refines (message_of level text at) h room (room_left level h e))
  | inr e ↦ rw (takes_of level text at h, e) (cells, h)
]
