-- ===== src/ThreadPool/Growth.antt =====
-- What happens to the waiting tasks of src/thread_pool.c when the queue grows.
use emme.Prelude.{
  cells_from, ℕ, zero, suc, ◌+◌, ◌-◌, ◌*◌, ◌%◌, ◌<◌, ◌≤◌, ◌≡◌, refl, ap, ◌∙◌, sym, Bool, true,
  false, ltb, ◌==◌, Option, none, some, [], ◌∷◌, ◌++◌, set, get_or, length, replicate, arith,
  Bool-cases, length-set, length-replicate, get_or-set_self, get_or-set_ne, ◌⊎◌, inl, inr,
}
use native.Mathlib.Nat.{mod-eq_of_lt, mod-eq-sub-mod}
use native.Mathlib.Numerals.{add-one}
use mathlib.Core.Path.{ap₂}
use emme.ThreadPool.Queue.{TaskQueue, Cells, task_queue_push, append_task, copy_tasks, grow}
use emme.ThreadPool.Fifo.{IsValid, pending, append_task-pending}

length-copy_tasks :
    (q : TaskQueue) (left i : ℕ) (new_tasks : Cells)
    → length (copy_tasks q left i new_tasks) ≡ length new_tasks
unfolding copy_tasks
length-copy_tasks q zero i new_tasks = refl
length-copy_tasks q (suc left) i new_tasks =
    length-copy_tasks q left (suc i) _ ∙ length-set new_tasks i _

-- A round of the copy loop does not touch the cells before it.
copy_tasks_before :
    (q : TaskQueue) (left i j : ℕ) (new_tasks : Cells)
    → j < i
    → get_or (copy_tasks q left i new_tasks) j none ≡ get_or new_tasks j none
unfolding copy_tasks
copy_tasks_before q zero i j new_tasks h = refl
copy_tasks_before q (suc left) i j new_tasks h =
    copy_tasks_before q left (suc i) j _ (omega arith)
    ∙ get_or-set_ne new_tasks i j _ none (λ e. omega arith)

-- The loop puts the task at offset `j` into cell `j`.
copy_tasks-get :
    (q : TaskQueue) (left i j : ℕ) (new_tasks : Cells)
    → i ≤ j
    → j < i + left
    → i + left ≤ length new_tasks
    → get_or (copy_tasks q left i new_tasks) j none
      ≡ get_or q.tasks ((q.front + j) % q.capacity) none
unfolding copy_tasks
copy_tasks-get q zero i j new_tasks h l r = absurd (omega arith)
copy_tasks-get q (suc left) i j new_tasks h l r = elim (Bool-cases (i == j)) [
  | inl same ↦
      let e : i ≡ j = ground arith in
      let v = get_or q.tasks ((q.front + i) % q.capacity) none in
      copy_tasks_before q left (suc i) j (set new_tasks i v) (omega arith)
      ∙ rw e (
          get_or-set_self new_tasks j (get_or q.tasks ((q.front + j) % q.capacity) none) none
            (omega arith))
  | inr differs ↦
      let v = get_or q.tasks ((q.front + i) % q.capacity) none in
      copy_tasks-get q left (suc i) j (set new_tasks i v) (ground arith) (omega arith)
        (omega (arith, length-set new_tasks i v))
]

copied-cells :
    (q : TaskQueue) (k n : ℕ) (new_tasks : Cells) (size : ℕ)
    → k + n ≡ q.count
    → q.count ≤ size
    → size ≤ length new_tasks
    → cells_from (copy_tasks q q.count 0 new_tasks) size 0 k n
      ≡ cells_from q.tasks q.capacity q.front k n
copied-cells q k zero new_tasks size e f g = refl
copied-cells q k (suc n) new_tasks size e f g =
    ap₂ ◌∷◌
      (ap (λ (t : ℕ). get_or (copy_tasks q q.count 0 new_tasks) t none) at
        ∙ copy_tasks-get q q.count 0 k new_tasks (omega arith) (omega arith) (omega arith))
      (copied-cells q (suc k) n new_tasks size (omega arith) f g)
  where
    at : (0 + k) % size ≡ k
    at = ap (λ (t : ℕ). t % size) (omega arith) ∙ mod-eq_of_lt {n = k} {m = size} (omega arith)

-- A queue whose front has moved grows with its tasks in order.
pub grow-pending :
    (q : TaskQueue)
    → IsValid q
    → 0 < q.front
    → IsValid (grow q)
      × (pending (grow q) ≡ pending q)
      × ((grow q).capacity ≡ q.capacity * 2)
      × ((grow q).count ≡ q.count)
unfolding grow
grow-pending q v h =
    let new_tasks : Cells = replicate (q.capacity * 2) none in
    let new_len : length new_tasks ≡ q.capacity * 2 = length-replicate (q.capacity * 2) none in
    let moved : ltb 0 q.front ≡ true = ground arith in
    rw moved (
      record {
        sized = length-copy_tasks q q.count 0 new_tasks ∙ new_len;
        nonempty = omega (arith, v.nonempty);
        fits = omega (arith, v.fits);
        front_in = omega (arith, v.nonempty);
        rear_at = sym (
            ap (λ (t : ℕ). t % (q.capacity * 2)) (omega arith)
            ∙ mod-eq_of_lt {n = q.count} {m = q.capacity * 2} (omega (arith, v.fits, v.nonempty)));
      },
      copied-cells q 0 q.count new_tasks (q.capacity * 2) (omega arith) (omega (arith, v.fits))
          (omega (arith, new_len)),
      refl,
      refl,
    )

-- `task_queue_push` refuses a task only if the queue is full and no larger array can be had, and then
-- changes nothing. Otherwise the task goes behind those that wait, in order, provided that the queue is
-- not full or that its front has moved.
pub push-pending :
    (allocated : Bool) (q : TaskQueue) (task : ℕ)
    → IsValid q
    → (q.count < q.capacity) ⊎ (0 < q.front)
    → let (done, q') = task_queue_push allocated q task in
      IsValid q'
      × (((done ≡ false) × (allocated ≡ false) × (q.count ≡ q.capacity) × (q' ≡ q))
          ⊎ ((done ≡ true) × (pending q' ≡ pending q ++ (some task ∷ []))))
unfolding task_queue_push
push-pending allocated q task v ok' = elim (Bool-cases (q.count == q.capacity)) [
  | inr room ↦
      rw room (let (v', p) = append_task-pending q task v (ground arith) in (v', inr (refl, p)))
  | inl full ↦ rw full (elim (Bool-cases allocated) [
    | inr refused ↦ rw refused (v, inl (refl, refl, ground arith, refl))
    | inl granted ↦
        let front : 0 < q.front = ground arith in
        let (vg, pg, cg, ng) = grow-pending q v front in
        let (v', p) =
          append_task-pending (grow q) task vg (omega (arith, cg, ng, v.nonempty, v.fits)) in
        rw granted (v', inr (refl, rw (← pg) p))
  ])
]

get_or-replicate-none : (n j : ℕ) → get_or {A = Option ℕ} (replicate n none) j none ≡ none
get_or-replicate-none zero j = refl
get_or-replicate-none (suc n) zero = refl
get_or-replicate-none (suc n) (suc j) = get_or-replicate-none n j

-- Behind the first cell of an array that is otherwise unwritten there is no value.
blank-cells :
    (task m size k n : ℕ)
    → suc k + n ≤ size
    → cells_from (some task ∷ replicate m none) size 0 (suc k) n ≡ replicate n none
blank-cells task m size k zero h = refl
blank-cells task m size k (suc n) h =
    ap₂ ◌∷◌
      (ap (λ (t : ℕ). get_or (some task ∷ replicate m none) t none) at ∙ get_or-replicate-none m k)
      (blank-cells task m size (suc k) n (omega arith))
  where
    at : (0 + suc k) % size ≡ suc k
    at = ap (λ (t : ℕ). t % size) (omega arith) ∙ mod-eq_of_lt {n = suc k} {m = size} (omega arith)

replicate-double :
    (c : ℕ) → 0 < c → replicate {A = Option ℕ} (c * 2) none ≡ none ∷ replicate (c * 2 - 1) none
replicate-double c h =
    let e : c * 2 ≡ suc (c * 2 - 1) = omega arith in
    ap (λ (t : ℕ). replicate {A = Option ℕ} t none) e

blank_append :
    (task c r f : ℕ)
    → 0 < c
    → r ≡ 0
    → f ≡ 0
    → cells_from (set (replicate (c * 2) none) r (some task)) (c * 2) f 0 (c + 1)
      ≡ some task ∷ replicate c none
blank_append task c r f pos at start =
    let z : (0 + 0) % (c * 2) ≡ 0 = mod-eq_of_lt {n = 0} {m = c * 2} (omega arith) in
    rw (replicate-double c pos, at, start, add-one c, z)
      (ap (λ (t : Cells). some task ∷ t) (blank-cells task (c * 2 - 1) (c * 2) 0 c (omega arith)))

grow_in_place :
    (q : TaskQueue)
    → q.front ≡ 0
    → grow q ≡ record q { tasks = replicate (q.capacity * 2) none; capacity = q.capacity * 2 }
unfolding grow
grow_in_place q h = let still : ltb 0 q.front ≡ false = ground arith in rw still

-- The rear of a full queue is its front.
rear_of_full : (q : TaskQueue) → IsValid q → q.count ≡ q.capacity → q.front ≡ 0 → q.rear ≡ 0
rear_of_full q v full start = omega (
  arith,
  v.rear_at,
  v.nonempty,
  mod-eq-sub-mod {n = q.front + q.count} {m = q.capacity} (omega arith),
  mod-eq_of_lt {n = q.front + q.count - q.capacity} {m = q.capacity} (omega (arith, v.nonempty)),
)

-- A queue that fills up before its first pop loses every task that waits: after the push the new task
-- is the oldest, and the cells behind it hold no value.
pub push_loses :
    (q : TaskQueue) (task : ℕ)
    → IsValid q
    → q.count ≡ q.capacity
    → q.front ≡ 0
    → let (done, q') = task_queue_push true q task in
      (done ≡ true) × (pending q' ≡ some task ∷ replicate q.count none)
unfolding task_queue_push append_task
push_loses q task v full start =
    let tested : (q.count == q.capacity) ≡ true = ground arith in
    rw (tested, grow_in_place q start, full)
      (
        refl,
        blank_append task q.capacity q.rear q.front v.nonempty (rear_of_full q v full start) start,
      )
