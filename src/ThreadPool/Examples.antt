-- ===== src/ThreadPool/Examples.antt =====
-- Runs of the queue and the pool of src/thread_pool.c, and their theorems at concrete inputs.
use emme.Prelude.{
  ◌+◌, ◌<◌, ◌≤◌, ◌≡◌, refl, some, none, replicate, arith, [], ◌∷◌, ◌++◌, true, false, inr, ◌⊎◌,
  length, Bool, occurs,
}
use emme.ThreadPool.Queue.{TaskQueue, task_queue_push, grow, append_task, task_queue_init}
use emme.ThreadPool.Fifo.{IsValid, pending}
use emme.ThreadPool.Growth.{push-pending, push_loses}
use emme.ThreadPool.Pool.{
  ThreadPool, thread_pool_create, thread_pool_add_task, spawn, take_index, start, worker_turn,
}
use emme.ThreadPool.Workers.{
  World, Reach, here, next, add, turn, new_world, after_add, after_turn, Reach-threads,
}

-- A full queue of three whose front has moved: 5, 6, 7 wait.
abbrev wrapped : TaskQueue
wrapped = record {
  tasks = some 7 ∷ some 5 ∷ some 6 ∷ [];
  capacity = 3;
  count = 3;
  front = 1;
  rear = 1;
}

-- A full queue of three that was never popped.
abbrev unmoved : TaskQueue
unmoved = record {
  tasks = some 5 ∷ some 6 ∷ some 7 ∷ [];
  capacity = 3;
  count = 3;
  front = 0;
  rear = 0;
}

wrapped-IsValid : IsValid wrapped
wrapped-IsValid = omega arith

unmoved-IsValid : IsValid unmoved
unmoved-IsValid = omega arith

grown_in_order : pending (task_queue_push true wrapped 8).1 ≡ some 5 ∷ some 6 ∷ some 7 ∷ some 8 ∷ []
unfolding task_queue_push grow append_task
grown_in_order = refl

push-pending_example :
    let (done, q') = task_queue_push true wrapped 8 in
    IsValid q'
    × (((done ≡ false)
          × (◌≡◌ {A = Bool} true false)
          × (wrapped.count ≡ wrapped.capacity)
          × (q' ≡ wrapped))
        ⊎ ((done ≡ true) × (pending q' ≡ pending wrapped ++ (some 8 ∷ []))))
push-pending_example = push-pending true wrapped 8 wrapped-IsValid (inr (omega arith))

push_loses_example :
    let (done, q') = task_queue_push true unmoved 8 in
    (done ≡ true) × (pending q' ≡ some 8 ∷ replicate 3 none)
push_loses_example = push_loses unmoved 8 unmoved-IsValid refl refl

-- A pool of one to two threads.
abbrev small_pool : ThreadPool
small_pool = record {
  queue = task_queue_init;
  num_threads = 1;
  threads_created = 1;
  min_threads = 1;
  max_threads = 2;
  free_indices = [];
  shutdown = false;
}

abbrev one_task : World
one_task = after_add (new_world small_pool) (thread_pool_add_task true true small_pool 5)

abbrev two_tasks : World
two_tasks = after_add one_task (thread_pool_add_task true true one_task.pool 6)

second_thread : two_tasks.running ≡ 1 ∷ 0 ∷ []
unfolding thread_pool_add_task spawn take_index start task_queue_push append_task task_queue_init
second_thread = refl

abbrev one_exit : World
one_exit = after_turn two_tasks 0 (worker_turn false two_tasks.pool 0)

history : Reach (new_world small_pool) one_exit
unfolding thread_pool_add_task spawn take_index start task_queue_push append_task task_queue_init
history =
    next (next (next here (add _ true true 5)) (add _ true true 6))
      (turn two_tasks false 0 (omega arith))

Reach-threads_example :
    (one_exit.pool.num_threads ≡ length one_exit.running)
    × (one_exit.pool.num_threads ≤ 2)
    × (one_exit.pool.shutdown ≡ false → 1 ≤ one_exit.pool.num_threads)
    × (occurs 1 one_exit.pool.free_indices + occurs 1 one_exit.running ≤ 1)
    × (0 < occurs 1 one_exit.pool.free_indices + occurs 1 one_exit.running → 1 < 2)
unfolding thread_pool_create
Reach-threads_example = Reach-threads 1 2 1 {p = small_pool} {w = one_exit} refl history
