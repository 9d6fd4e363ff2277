-- ===== src/ThreadPool/Workers.antt =====
-- Threads of src/thread_pool.c as a step relation: calls of `thread_pool_add_task`, turns of
-- `worker_thread` and the shutdown, in any order. Each runs under the pool's lock.
use emme.Prelude.{
  ℕ, zero, suc, ◌+◌, ◌<◌, ◌≤◌, ◌≡◌, refl, ap, Bool, false, if◌then◌else◌, ltb, Option, none, some,
  List, [], ◌∷◌, length, arith,
}
use emme.Prelude.{occurs, remove, occurs-remove, length-remove}
use emme.ThreadPool.Queue.{task_queue_push}
use emme.ThreadPool.Pool.{
  ThreadPool, thread_pool_create, mark_thread_exit, take_index, start, spawn, thread_pool_add_task,
  Turn, wait, exit, run, worker_turn, begin_shutdown,
}

-- The pool, beside the slots of the threads that run.
pub record World : Type 0 where
  pub pool : ThreadPool
  pub running : List ℕ

abbrev pub begun : Option ℕ → List ℕ → List ℕ
begun none js = js
begun (some i) js = i ∷ js

abbrev pub left_by : Turn → ℕ → List ℕ → List ℕ
left_by exit i js = remove i js
left_by wait i js = js
left_by (run task) i js = js

abbrev pub after_add : World → Bool × Option ℕ × ThreadPool → World
after_add w (done, started, p) = record { pool = p; running = begun started w.running }

abbrev pub after_turn : World → ℕ → Turn × ThreadPool → World
after_turn w index (t, p) = record { pool = p; running = left_by t index w.running }

pub data Step : World → World → Type 0 where
  add :
      (w : World) (allocated spawned : Bool) (task : ℕ)
      → Step w (after_add w (thread_pool_add_task allocated spawned w.pool task))
  turn :
      (w : World) (timed_out : Bool) (index : ℕ)
      → 0 < occurs index w.running
      → Step w (after_turn w index (worker_turn timed_out w.pool index))
  shut : (w : World) → Step w (record w { pool = begin_shutdown w.pool })

pub data Reach (v : World) : World → Type 0 where
  here : Reach v v
  next : {u w : World} → Reach v u → Step u w → Reach v w

-- What the pool knows of its threads.
pub record IsStaffed (w : World) : Type 0 where
  pub counted : w.pool.num_threads ≡ length w.running
  pub slots : length w.pool.free_indices + length w.running ≤ w.pool.threads_created
  pub created : w.pool.threads_created ≤ w.pool.max_threads
  pub kept : w.pool.shutdown ≡ false → w.pool.min_threads ≤ w.pool.num_threads

-- No slot is free twice, runs two threads, or is free while its thread runs.
abbrev pub IsExclusive : ℕ → World → Type 0
IsExclusive i w =
    (occurs i w.pool.free_indices + occurs i w.running ≤ 1)
    × (w.pool.threads_created ≤ i → occurs i w.pool.free_indices + occurs i w.running ≡ 0)

-- What `spawn` needs and gives: the queue plays no part in the facts about slots.
spawn-IsStaffed :
    (w : World) (spawned : Bool)
    → IsStaffed w
    → let (started, p) = spawn spawned w.pool in
      IsStaffed (record { pool = p; running = begun started w.running })
unfolding spawn start take_index
spawn-IsStaffed w spawned s = ground arith

spawn-IsExclusive :
    (i : ℕ) (w : World) (spawned : Bool)
    → IsExclusive i w
    → let (started, p) = spawn spawned w.pool in
      IsExclusive i (record { pool = p; running = begun started w.running })
unfolding spawn start take_index
spawn-IsExclusive i w spawned s = ground arith

add-IsStaffed :
    (w : World) (allocated spawned : Bool) (task : ℕ)
    → IsStaffed w
    → IsStaffed (after_add w (thread_pool_add_task allocated spawned w.pool task))
unfolding thread_pool_add_task
add-IsStaffed w allocated spawned task s =
    let q = (task_queue_push allocated w.pool.queue task).1 in
    let w' : World = record w { pool = record (w.pool) { queue = q } } in
    ground (arith, spawn-IsStaffed w' spawned)

add-IsExclusive :
    (i : ℕ) (w : World) (allocated spawned : Bool) (task : ℕ)
    → IsExclusive i w
    → IsExclusive i (after_add w (thread_pool_add_task allocated spawned w.pool task))
unfolding thread_pool_add_task
add-IsExclusive i w allocated spawned task s =
    let q = (task_queue_push allocated w.pool.queue task).1 in
    let w' : World = record w { pool = record (w.pool) { queue = q } } in
    ground (arith, spawn-IsExclusive i w' spawned)

turn-IsStaffed :
    (w : World) (timed_out : Bool) (index : ℕ)
    → 0 < occurs index w.running
    → IsStaffed w
    → IsStaffed (after_turn w index (worker_turn timed_out w.pool index))
unfolding worker_turn mark_thread_exit
turn-IsStaffed w timed_out index h s = ground (arith, length-remove index w.running)

turn-IsExclusive :
    (i : ℕ) (w : World) (timed_out : Bool) (index : ℕ)
    → 0 < occurs index w.running
    → IsExclusive i w
    → IsExclusive i (after_turn w index (worker_turn timed_out w.pool index))
unfolding worker_turn mark_thread_exit
turn-IsExclusive i w timed_out index h s = ground (arith, occurs-remove i index w.running)

Step-IsStaffed : {u w : World} → Step u w → IsStaffed u → IsStaffed w
unfolding begin_shutdown
Step-IsStaffed (add w allocated spawned task) s = add-IsStaffed w allocated spawned task s
Step-IsStaffed (turn w timed_out index h) s = turn-IsStaffed w timed_out index h s
Step-IsStaffed (shut w) s = ground arith

Step-IsExclusive : {u w : World} (i : ℕ) → Step u w → IsExclusive i u → IsExclusive i w
unfolding begin_shutdown
Step-IsExclusive i (add w allocated spawned task) s = add-IsExclusive i w allocated spawned task s
Step-IsExclusive i (turn w timed_out index h) s = turn-IsExclusive i w timed_out index h s
Step-IsExclusive i (shut w) s = s

-- `thread_pool_create` starts a thread in each of the first slots.
abbrev pub slots_below : ℕ → List ℕ
slots_below zero = []
slots_below (suc n) = n ∷ slots_below n

length-slots_below : (n : ℕ) → length (slots_below n) ≡ n
length-slots_below zero = refl
length-slots_below (suc n) = ap suc (length-slots_below n)

occurs-slots_below : (i n : ℕ) → occurs i (slots_below n) ≡ (if ltb i n then 1 else 0)
occurs-slots_below i zero = ground arith
occurs-slots_below i (suc n) = ground (arith, occurs-slots_below i n)

abbrev pub new_world : ThreadPool → World
new_world p = record { pool = p; running = slots_below p.num_threads }

create-IsStaffed :
    (low high : ℕ) {p : ThreadPool}
    → thread_pool_create low high ≡ some p
    → IsStaffed (new_world p) × (p.max_threads ≡ high)
unfolding thread_pool_create
create-IsStaffed low high {p} e = ground (arith, length-slots_below p.num_threads)

create-IsExclusive :
    (i low high : ℕ) {p : ThreadPool}
    → thread_pool_create low high ≡ some p
    → IsExclusive i (new_world p)
unfolding thread_pool_create
create-IsExclusive i low high {p} e = ground (arith, occurs-slots_below i p.num_threads)

Reach-IsStaffed : {v w : World} → IsStaffed v → Reach v w → IsStaffed w
Reach-IsStaffed s here = s
Reach-IsStaffed s (next r st) = Step-IsStaffed st (Reach-IsStaffed s r)

Reach-IsExclusive : {v w : World} (i : ℕ) → IsExclusive i v → Reach v w → IsExclusive i w
Reach-IsExclusive i s here = s
Reach-IsExclusive i s (next r st) = Step-IsExclusive i st (Reach-IsExclusive i s r)

bounds-Step :
    {u w : World}
    → Step u w
    → (w.pool.max_threads ≡ u.pool.max_threads) × (w.pool.min_threads ≡ u.pool.min_threads)
unfolding thread_pool_add_task spawn start take_index worker_turn mark_thread_exit begin_shutdown
bounds-Step (add w allocated spawned task) = ground arith
bounds-Step (turn w timed_out index h) = ground arith
bounds-Step (shut w) = (refl, refl)

bounds-Reach :
    {v w : World}
    → Reach v w
    → (w.pool.max_threads ≡ v.pool.max_threads) × (w.pool.min_threads ≡ v.pool.min_threads)
bounds-Reach here = (refl, refl)
bounds-Reach (next r st) = omega (arith, bounds-Step st, bounds-Reach r)

-- From a pool that `thread_pool_create` makes, through any calls of `thread_pool_add_task`, turns of the
-- workers and a shutdown: `num_threads` is the number of threads that run, it is at most `max_threads`
-- and, before the shutdown, at least `min_threads`; the slots of the running threads and the free slots
-- are all different, and below `max_threads`.
pub Reach-threads :
    (low high i : ℕ) {p : ThreadPool} {w : World}
    → thread_pool_create low high ≡ some p
    → Reach (new_world p) w
    → (w.pool.num_threads ≡ length w.running)
      × (w.pool.num_threads ≤ high)
      × (w.pool.shutdown ≡ false → p.min_threads ≤ w.pool.num_threads)
      × (occurs i w.pool.free_indices + occurs i w.running ≤ 1)
      × (0 < occurs i w.pool.free_indices + occurs i w.running → i < high)
Reach-threads low high i e r =
    let s = Reach-IsStaffed (create-IsStaffed low high e).0 r in
    let x = Reach-IsExclusive i (create-IsExclusive i low high e) r in
    ground (arith, s, x, bounds-Reach r, (create-IsStaffed low high e).1)
