-- ===== src/ThreadPool/Pool.antt =====
-- The pool of src/thread_pool.c: its thread slots and the operations on them. A thread is its slot.
use emme.Prelude.{
  ℕ, ◌+◌, ◌-◌, Bool, true, false, if◌then◌else◌, ltb, leb, ◌==◌, ◌&&◌, Option, none, some, List, [],
  ◌∷◌, length,
}
use emme.ThreadPool.Queue.{TaskQueue, task_queue_init, task_queue_push, task_queue_pop}

-- `struct ThreadPool` without its lock, condition and thread handles. `free_indices` holds the first
-- `free_count` cells of the array, the top of the stack first; `running` are the slots whose thread runs.
pub record ThreadPool : Type 0 where
  pub queue : TaskQueue
  pub num_threads : ℕ
  pub threads_created : ℕ
  pub min_threads : ℕ
  pub max_threads : ℕ
  pub free_indices : List ℕ
  pub shutdown : Bool

-- `thread_pool_create` where each allocation and each pthread_create succeeds; `none` is NULL.
unfoldable pub thread_pool_create : ℕ → ℕ → Option ThreadPool
thread_pool_create min_threads max_threads =
    if max_threads == 0
    then none
    else let at_least = if min_threads == 0 then 1 else min_threads in
      let threads = if ltb max_threads at_least then max_threads else at_least in
      some (record {
        queue = task_queue_init;
        num_threads = threads;
        threads_created = threads;
        min_threads = threads;
        max_threads = max_threads;
        free_indices = [];
        shutdown = false;
      })

-- `mark_thread_exit`
unfoldable pub mark_thread_exit : ThreadPool → ℕ → ThreadPool
mark_thread_exit p index = record p {
  free_indices =
      if ltb (length p.free_indices) p.max_threads then index ∷ p.free_indices else p.free_indices;
  num_threads = if ltb 0 p.num_threads then p.num_threads - 1 else p.num_threads;
}

-- The slot that `thread_pool_add_task` takes for a new thread, and the pool without it. A slot of
-- `max_threads` stands for none.
unfoldable pub take_index : ThreadPool → List ℕ → ℕ × ThreadPool
take_index p (index ∷ rest) = (index, record p { free_indices = rest })
take_index p [] =
    if leb p.max_threads p.threads_created
    then (p.max_threads, p)
    else (p.threads_created, record p { threads_created = p.threads_created + 1 })

unfoldable pub start : Bool → ℕ × ThreadPool → Option ℕ × ThreadPool
start spawned (index, p) =
    if ltb index p.max_threads && spawned
    then (some index, record p { num_threads = p.num_threads + 1 })
    else (none, p)

-- The branch that spawns a thread: the slot of the new thread, if pthread_create (`spawned`) starts one.
unfoldable pub spawn : Bool → ThreadPool → Option ℕ × ThreadPool
unfolding take_index start
spawn spawned p =
    if ltb p.num_threads p.queue.count && ltb p.num_threads p.max_threads
    then start spawned (take_index p p.free_indices)
    else (none, p)

-- `thread_pool_add_task`: its result, the slot of a thread that it started, and the pool after.
unfoldable pub thread_pool_add_task : Bool → Bool → ThreadPool → ℕ → Bool × Option ℕ × ThreadPool
thread_pool_add_task allocated spawned p task =
    if p.shutdown
    then (false, none, p)
    else let r = task_queue_push allocated p.queue task in
      let s = spawn spawned (record p { queue = r.1 }) in
      if r.0 then (true, s.0, s.1) else (false, none, p)

-- What one turn of `worker_thread` does with the pool locked, from the test of the inner loop on.
pub data Turn : Type 0 where
  wait : Turn
  exit : Turn
  run : Option ℕ → Turn

-- `timed_out` is whether pthread_cond_timedwait returned ETIMEDOUT. A thread that finds no task and
-- no shutdown waits once more, unless it timed out and the pool has threads to spare.
unfoldable pub worker_turn : Bool → ThreadPool → ℕ → Turn × ThreadPool
worker_turn timed_out p index =
    if p.queue.count == 0 && (if p.shutdown then false else true)
    then if timed_out && ltb p.min_threads p.num_threads
      then (exit, mark_thread_exit p index)
      else (wait, p)
    else if p.shutdown
    then (exit, mark_thread_exit p index)
    else let (has_task, task, q) = task_queue_pop p.queue in (run task, record p { queue = q })

-- The locked part of `thread_pool_destroy`.
unfoldable pub begin_shutdown : ThreadPool → ThreadPool
begin_shutdown p = record p { shutdown = true }
