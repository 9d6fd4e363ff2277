-- ===== src/ThreadPool/Queue.antt =====
-- The circular task queue of src/thread_pool.c. A task is a number; a cell of a freshly allocated array
-- holds no value (`none`) until it is written, and so does a cell of a freed one.
use emme.Prelude.{
  ℕ, zero, suc, ◌+◌, ◌-◌, ◌*◌, ◌%◌, Bool, true, false, if◌then◌else◌, ltb, ◌==◌, Option, none, some,
  List, set, get_or, replicate,
}

-- TASK_QUEUE_INITIAL_CAPACITY
abbrev pub task_queue_initial_capacity : ℕ
task_queue_initial_capacity = 256

abbrev pub Cells : Type 0
Cells = List (Option ℕ)

-- `TaskQueue`
pub record TaskQueue : Type 0 where
  pub tasks : Cells
  pub capacity : ℕ
  pub count : ℕ
  pub front : ℕ
  pub rear : ℕ

-- `task_queue_init`; the first malloc succeeds.
unfoldable pub task_queue_init : TaskQueue
task_queue_init = record {
  tasks = replicate task_queue_initial_capacity none;
  capacity = task_queue_initial_capacity;
  count = 0;
  front = 0;
  rear = 0;
}

-- `for (i = 0; i < count; i++) new_tasks[i].task = tasks[(front + i) % capacity].task;` with `left`
-- rounds to go.
unfoldable pub copy_tasks : TaskQueue → ℕ → ℕ → Cells → Cells
copy_tasks q zero i new_tasks = new_tasks
copy_tasks q (suc left) i new_tasks =
    copy_tasks q left (suc i) (set new_tasks i (get_or q.tasks ((q.front + i) % q.capacity) none))

-- The branch `if (queue->count == queue->capacity)`. The tasks are copied only if `front > 0`.
unfoldable pub grow : TaskQueue → TaskQueue
unfolding copy_tasks
grow q =
    let new_tasks = replicate (q.capacity * 2) none in
    if ltb 0 q.front
    then record {
      tasks = copy_tasks q q.count 0 new_tasks;
      capacity = q.capacity * 2;
      count = q.count;
      front = 0;
      rear = q.count;
    }
    else record q { tasks = new_tasks; capacity = q.capacity * 2 }

-- The last three statements of `task_queue_push`.
unfoldable pub append_task : TaskQueue → ℕ → TaskQueue
append_task q task = record q {
  tasks = set q.tasks q.rear (some task);
  rear = (q.rear + 1) % q.capacity;
  count = q.count + 1;
}

-- `task_queue_push`; `allocated` says whether the malloc of a larger array succeeds.
unfoldable pub task_queue_push : Bool → TaskQueue → ℕ → Bool × TaskQueue
task_queue_push allocated q task =
    if q.count == q.capacity
    then (if allocated then (true, append_task (grow q) task) else (false, q))
    else (true, append_task q task)

-- `task_queue_pop`: the result, what `*task` receives (`none` also for a cell that holds no value),
-- and the queue after.
unfoldable pub task_queue_pop : TaskQueue → Bool × Option ℕ × TaskQueue
task_queue_pop q = if q.count == 0 then (false, none, q) else (
  true,
  get_or q.tasks q.front none,
  record q { front = (q.front + 1) % q.capacity; count = q.count - 1 },
)
