-- ===== src/ThreadPool/Fifo.antt =====
-- The task queue of src/thread_pool.c seen as a first-in first-out list: what stands in it, where a push
-- does not have to grow it, and what a pop takes.
use emme.Prelude.{
  ℕ, suc, ◌+◌, ◌-◌, ◌%◌, ◌<◌, ◌≤◌, ◌≡◌, refl, ap, ◌∙◌, true, false, ◌==◌, none, some, [], ◌∷◌, ◌++◌,
  get_or, length, arith, ◌≢◌, ◌⊎◌, inl, inr, Bool-cases, length-set, cells_from, cells_from-set,
  cells_from-front,
}
use native.Mathlib.Nat.{mod-add-mod, mod-lt, mod-eq_of_lt}
use native.Mathlib.Numerals.{add-one}
use emme.ThreadPool.Queue.{TaskQueue, Cells, task_queue_pop, append_task}

-- The tasks that wait, the oldest first.
abbrev pub pending : TaskQueue → Cells
pending q = cells_from q.tasks q.capacity q.front 0 q.count

pub record IsValid (q : TaskQueue) : Type 0 where
  pub sized : length q.tasks ≡ q.capacity
  pub nonempty : 0 < q.capacity
  pub fits : q.count ≤ q.capacity
  pub front_in : q.front < q.capacity
  pub rear_at : q.rear ≡ (q.front + q.count) % q.capacity

pub append_task-pending :
    (q : TaskQueue) (task : ℕ)
    → IsValid q
    → q.count < q.capacity
    → IsValid (append_task q task) × (pending (append_task q task) ≡ pending q ++ (some task ∷ []))
unfolding append_task
append_task-pending q task v room = (
  record {
    sized = length-set q.tasks q.rear (some task) ∙ v.sized;
    nonempty = v.nonempty;
    fits = omega arith;
    front_in = v.front_in;
    rear_at = rw (v.rear_at, mod-add-mod) (ap (λ (t : ℕ). t % q.capacity) (omega arith));
  },
  rw (add-one q.count) (
      cells_from-set q.tasks q.capacity q.front 0 q.count q.rear (some task) v.sized v.front_in
        (omega arith) (v.rear_at ∙ ap (λ (t : ℕ). (q.front + t) % q.capacity) (omega arith))),
)

pending-split :
    (q : TaskQueue)
    → q.count ≢ 0
    → pending q
      ≡ get_or q.tasks (q.front % q.capacity) none
        ∷ cells_from q.tasks q.capacity q.front 1 (q.count - 1)
pending-split q n =
    let e : q.count ≡ suc (q.count - 1) = omega arith in
    let z : q.front + 0 ≡ q.front = omega arith in
    ap (cells_from q.tasks q.capacity q.front 0) e
    ∙ ap
        (λ (t : ℕ).
          get_or q.tasks (t % q.capacity) none
          ∷ cells_from q.tasks q.capacity q.front 1 (q.count - 1))
        z

empty_pending : (q : TaskQueue) → q.count ≡ 0 → pending q ≡ []
empty_pending q e = ap (cells_from q.tasks q.capacity q.front 0) e

-- The rear stays where it is when the front moves on.
rear_kept : (f n size : ℕ) → n ≢ 0 → (f + n) % size ≡ ((f + 1) % size + (n - 1)) % size
rear_kept f n size h = rw mod-add-mod (ap (λ (t : ℕ). t % size) (omega arith))

-- `task_queue_pop` fails on the empty queue only; otherwise it hands out the oldest task and leaves
-- the others in order.
pub pop-pending :
    (q : TaskQueue)
    → IsValid q
    → let (done, task, q') = task_queue_pop q in
      IsValid q'
      × (((done ≡ false) × (pending q ≡ []) × (q' ≡ q))
          ⊎ ((done ≡ true) × (pending q ≡ task ∷ pending q')))
unfolding task_queue_pop
pop-pending q v = elim (Bool-cases (q.count == 0)) [
  | inl none_left ↦ rw none_left (v, inl (refl, empty_pending q (ground arith), refl))
  | inr some_left ↦ rw some_left (
    record {
      sized = v.sized;
      nonempty = v.nonempty;
      fits = omega arith;
      front_in = mod-lt (q.front + 1) v.nonempty;
      rear_at = v.rear_at ∙ rear_kept q.front q.count q.capacity (ground arith);
    },
    inr (refl, rw (cells_from-front, pending-split q (ground arith), mod-eq_of_lt v.front_in)),
  )
]
