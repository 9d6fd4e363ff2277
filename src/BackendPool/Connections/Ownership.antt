-- ===== src/BackendPool/Connections/Ownership.antt =====
-- Who holds the connections of a pool of src/backend_pool.c: any sequence of acquires, releases of held
-- connections and marks of held connections. Acquires run under the pool's lock.
use emme.Prelude.{
  ℕ, zero, suc, ◌+◌, ◌<◌, ◌≤◌, ◌≡◌, refl, Bool, true, false, if◌then◌else◌, ltb, ℤ, pos_part,
  Option, none, some, List, [], ◌∷◌, get_or, length, arith, length-set, get_or-set_self,
  get_or-set_ne, occurs, remove, occurs-remove,
}
use emme.BackendPool.Connections.Search.{
  in_use_count, in_use-set, in_use-le, acquire_conn-Counted, acquire_conn-Given,
}
use emme.BackendPool.Connections.{
  Conn, max_size, Pool, new_conn, create_conns, backend_pool_create, acquire_conn,
  backend_pool_acquire, conn_at, backend_pool_release, mark_success, mark_failure, mark,
}

-- The pool, beside the connections that callers hold.
pub record World : Type 0 where
  pub pool : Pool
  pub holders : List ℕ

abbrev pub after_acquire : World → Option ℕ × Pool → World
after_acquire w (none, p) = record w { pool = p }
after_acquire w (some i, p) = record { pool = p; holders = i ∷ w.holders }

pub data Step : World → World → Type 0 where
  acquire :
      (w : World) (now : ℕ) (reopened : ℕ → Bool)
      → Step w (after_acquire w (backend_pool_acquire w.pool now reopened))
  release :
      (w : World) (i now : ℕ)
      → 0 < occurs i w.holders
      → Step w (record { pool = backend_pool_release w.pool i now; holders = remove i w.holders })
  succeed :
      (w : World) (i : ℕ)
      → 0 < occurs i w.holders
      → Step w (record w { pool = mark mark_success w.pool i })
  fail :
      (w : World) (i : ℕ)
      → 0 < occurs i w.holders
      → Step w (record w { pool = mark mark_failure w.pool i })

pub data Reach (v : World) : World → Type 0 where
  here : Reach v v
  next : {u w : World} → Reach v u → Step u w → Reach v w

pub record IsCounted (p : Pool) : Type 0 where
  pub active : p.active_count ≡ in_use_count p.connections
  pub idle : p.idle_count + p.active_count ≡ length p.connections
  pub small : length p.connections ≤ max_size

abbrev pub uses : Pool → ℕ → ℕ
uses p i = if ltb i (length p.connections) then (if (conn_at p i).in_use then 1 else 0) else 0

-- Connection `i` is in use exactly while it has a holder, and then it has one.
abbrev pub IsOwned : ℕ → World → Type 0
IsOwned i w = occurs i w.holders ≡ uses w.pool i

acquire-IsCounted :
    (p : Pool) (now : ℕ) (reopened : ℕ → Bool)
    → IsCounted p
    → IsCounted (backend_pool_acquire p now reopened).1
unfolding backend_pool_acquire
acquire-IsCounted p now reopened v = ground (
  arith,
  acquire_conn-Counted now p.idle_timeout_sec reopened 0 p.connections,
  in_use-le p.connections,
  in_use-le (acquire_conn now p.idle_timeout_sec reopened 0 p.connections).1,
)

acquire-IsOwned :
    (i : ℕ) (w : World) (now : ℕ) (reopened : ℕ → Bool)
    → IsOwned i w
    → IsOwned i (after_acquire w (backend_pool_acquire w.pool now reopened))
unfolding backend_pool_acquire
acquire-IsOwned i w now reopened v = ground (
  arith,
  acquire_conn-Counted now w.pool.idle_timeout_sec reopened 0 w.pool.connections,
  acquire_conn-Given now w.pool.idle_timeout_sec reopened 0 i w.pool.connections,
)

release-IsCounted :
    (p : Pool) (i now : ℕ)
    → i < length p.connections
    → (conn_at p i).in_use ≡ true
    → IsCounted p
    → IsCounted (backend_pool_release p i now)
unfolding backend_pool_release
release-IsCounted p i now h u v =
    let c = record (conn_at p i) { in_use = false; last_used = now } in
    ground
      (arith, in_use-set p.connections i c h, length-set p.connections i c, in_use-le p.connections)

release-IsOwned :
    (j : ℕ) (w : World) (i now : ℕ)
    → 0 < occurs i w.holders
    → IsOwned i w
    → IsOwned j w
    → IsOwned j (record { pool = backend_pool_release w.pool i now; holders = remove i w.holders })
unfolding backend_pool_release
release-IsOwned j w i now h vi v =
    let c = record (conn_at w.pool i) { in_use = false; last_used = now } in
    ground (
      arith,
      occurs-remove j i w.holders h,
      length-set w.pool.connections i c,
      get_or-set_self w.pool.connections i c (new_conn 0),
      get_or-set_ne w.pool.connections i j c (new_conn 0),
    )

-- A mark leaves the use of every connection alone.
mark-IsCounted :
    (p : Pool) (i : ℕ) (f : Conn → Conn)
    → i < length p.connections
    → (f (conn_at p i)).in_use ≡ (conn_at p i).in_use
    → IsCounted p
    → IsCounted (mark f p i)
mark-IsCounted p i f h same v = ground (
  arith,
  in_use-set p.connections i (f (conn_at p i)) h,
  length-set p.connections i (f (conn_at p i)),
)

mark-IsOwned :
    (j : ℕ) (w : World) (i : ℕ) (f : Conn → Conn)
    → (f (conn_at w.pool i)).in_use ≡ (conn_at w.pool i).in_use
    → IsOwned j w
    → IsOwned j (record w { pool = mark f w.pool i })
mark-IsOwned j w i f same v =
    let c = f (conn_at w.pool i) in
    ground (
      arith,
      length-set w.pool.connections i c,
      get_or-set_self w.pool.connections i c (new_conn 0),
      get_or-set_ne w.pool.connections i j c (new_conn 0),
    )

record IsOrderly (w : World) : Type 0 where
  counted : IsCounted w.pool
  owned : (i : ℕ) → IsOwned i w

success_keeps : (c : Conn) → (mark_success c).in_use ≡ c.in_use
unfolding mark_success
success_keeps c = refl

failure_keeps : (c : Conn) → (mark_failure c).in_use ≡ c.in_use
unfolding mark_failure
failure_keeps c = refl

held :
    (w : World) (i : ℕ)
    → 0 < occurs i w.holders
    → IsOwned i w
    → (i < length w.pool.connections) × ((conn_at w.pool i).in_use ≡ true)
held w i h v = ground arith

Step-IsOrderly : {u w : World} → Step u w → IsOrderly u → IsOrderly w
Step-IsOrderly (acquire w now reopened) v = record {
  counted = ground (arith, acquire-IsCounted w.pool now reopened v.counted);
  owned = λ i. acquire-IsOwned i w now reopened (v.owned i);
}
Step-IsOrderly (release w i now h) v =
    let (a, b) = held w i h (v.owned i) in
    record {
      counted = release-IsCounted w.pool i now a b v.counted;
      owned = λ j. release-IsOwned j w i now h (v.owned i) (v.owned j);
    }
Step-IsOrderly (succeed w i h) v = record {
  counted =
      mark-IsCounted w.pool i mark_success (held w i h (v.owned i)).0
        (success_keeps (conn_at w.pool i)) v.counted;
  owned = λ j. mark-IsOwned j w i mark_success (success_keeps (conn_at w.pool i)) (v.owned j);
}
Step-IsOrderly (fail w i h) v = record {
  counted =
      mark-IsCounted w.pool i mark_failure (held w i h (v.owned i)).0
        (failure_keeps (conn_at w.pool i)) v.counted;
  owned = λ j. mark-IsOwned j w i mark_failure (failure_keeps (conn_at w.pool i)) (v.owned j);
}

Reach-IsOrderly : {v w : World} → IsOrderly v → Reach v w → IsOrderly w
Reach-IsOrderly o here = o
Reach-IsOrderly o (next r st) = Step-IsOrderly st (Reach-IsOrderly o r)

created :
    (made : ℕ → Bool) (now i left j : ℕ)
    → let cs = create_conns made now i left in
      (length cs ≤ left) × (in_use_count cs ≡ 0) × ((get_or cs j (new_conn 0)).in_use ≡ false)
unfolding create_conns
created made now i zero j = (omega arith, refl, refl)
created made now i (suc left) zero = ground (arith, created made now (suc i) left zero)
created made now i (suc left) (suc j) = ground (arith, created made now (suc i) left j)

create-IsOrderly :
    (made : ℕ → Bool) (size : ℤ) (now : ℕ) {p : Pool}
    → backend_pool_create made size now ≡ some p
    → IsOrderly (record { pool = p; holders = [] })
unfolding backend_pool_create
create-IsOrderly made size now e = record {
  counted = ground (arith, created made now 0 (pos_part size) 0);
  owned = λ i. ground (arith, created made now 0 (pos_part size) i);
}

-- Through any sequence of acquires, releases of held connections and marks of held connections from a
-- pool that `backend_pool_create` makes: `active_count` is the number of connections in use and, with
-- `idle_count`, makes up the size, which is at most 20; a connection has at most one holder, and is in
-- use exactly while it has one.
pub Reach-owned :
    (made : ℕ → Bool) (size : ℤ) (now i : ℕ) {p : Pool} {w : World}
    → backend_pool_create made size now ≡ some p
    → Reach (record { pool = p; holders = [] }) w
    → (w.pool.active_count ≡ in_use_count w.pool.connections)
      × (w.pool.idle_count + w.pool.active_count ≡ length w.pool.connections)
      × (length w.pool.connections ≤ max_size)
      × (occurs i w.holders ≤ 1)
      × (occurs i w.holders ≡ uses w.pool i)
Reach-owned made size now i e r =
    let o = Reach-IsOrderly (create-IsOrderly made size now e) r in
    ground (arith, o.counted, o.owned i)
