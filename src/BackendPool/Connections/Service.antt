-- ===== src/BackendPool/Connections/Service.antt =====
-- Which connection `backend_pool_acquire` of src/backend_pool.c hands out, and which it never will again.
use emme.Prelude.{
  ℕ, zero, suc, ◌<◌, ◌≡◌, refl, ap, Bool, true, false, none, some, List, [], ◌∷◌, set, get_or,
  length, arith, ◌≢◌, ◌⊎◌, inl, inr, Option-cases, length-set, get_or-set_ne, occurs, occurs-remove,
}
use emme.BackendPool.Connections.{
  Health, unknown, healthy, unhealthy, is_unhealthy, Conn, Pool, new_conn, offer, acquire_conn,
  backend_pool_acquire, conn_at, backend_pool_release, mark_success, mark_failure,
}
use emme.BackendPool.Connections.Ownership.{
  World, Step, acquire, release, succeed, fail, Reach, here, next, after_acquire,
}
use emme.BackendPool.Connections.Search.{acquire_conn-Counted, acquire_conn-Given}

-- A connection that is free and unhealthy.
pub record IsRetired (i : ℕ) (w : World) : Type 0 where
  pub present : i < length w.pool.connections
  pub free : (conn_at w.pool i).in_use ≡ false
  pub sick : (conn_at w.pool i).health ≡ unhealthy
  pub unheld : occurs i w.holders ≡ 0

acquire_conn-sick :
    (now timeout : ℕ) (reopened : ℕ → Bool) (i m : ℕ) (cs : List Conn)
    → m < length cs
    → (get_or cs m (new_conn 0)).health ≡ unhealthy
    → (get_or (acquire_conn now timeout reopened i cs).1 m (new_conn 0)).health ≡ unhealthy
unfolding acquire_conn offer
acquire_conn-sick now timeout reopened i m [] h s = absurd (omega arith)
acquire_conn-sick now timeout reopened i zero (c ∷ cs) h s = ground arith
acquire_conn-sick now timeout reopened i (suc m) (c ∷ cs) h s =
    ground (arith, acquire_conn-sick now timeout reopened (suc i) m cs)

acquire-refuses :
    (i : ℕ) (w : World) (now : ℕ) (reopened : ℕ → Bool)
    → IsRetired i w
    → (backend_pool_acquire w.pool now reopened).0 ≢ some i
unfolding backend_pool_acquire
acquire-refuses i w now reopened v =
    ground (arith, acquire_conn-Given now w.pool.idle_timeout_sec reopened 0 i w.pool.connections)

acquire-IsRetired :
    (i : ℕ) (w : World) (now : ℕ) (reopened : ℕ → Bool)
    → IsRetired i w
    → IsRetired i (after_acquire w (backend_pool_acquire w.pool now reopened))
unfolding backend_pool_acquire
acquire-IsRetired i w now reopened v = ground (
  arith,
  acquire_conn-Counted now w.pool.idle_timeout_sec reopened 0 w.pool.connections,
  acquire_conn-Given now w.pool.idle_timeout_sec reopened 0 i w.pool.connections,
  acquire_conn-sick now w.pool.idle_timeout_sec reopened 0 i w.pool.connections,
)

-- A write of another connection keeps a retired one.
other-IsRetired :
    (j i : ℕ) (w : World) (c : Conn)
    → j ≢ i
    → IsRetired i w
    → (get_or (set w.pool.connections j c) i (new_conn 0) ≡ conn_at w.pool i)
      × (length (set w.pool.connections j c) ≡ length w.pool.connections)
other-IsRetired j i w c n v =
    (get_or-set_ne w.pool.connections j i c (new_conn 0) n, length-set w.pool.connections j c)

Step-IsRetired : {u w : World} (i : ℕ) → Step u w → IsRetired i u → IsRetired i w
unfolding backend_pool_release
Step-IsRetired i (acquire w now reopened) v = acquire-IsRetired i w now reopened v
Step-IsRetired i (release w j now h) v =
    let n : j ≢ i = λ e. omega (arith, ap (λ (k : ℕ). occurs k w.holders) e) in
    ground (
      arith,
      other-IsRetired j i w (record (conn_at w.pool j) { in_use = false; last_used = now }) n v,
      occurs-remove i j w.holders h,
    )
Step-IsRetired i (succeed w j h) v =
    let n : j ≢ i = λ e. omega (arith, ap (λ (k : ℕ). occurs k w.holders) e) in
    ground (arith, other-IsRetired j i w (mark_success (conn_at w.pool j)) n v)
Step-IsRetired i (fail w j h) v =
    let n : j ≢ i = λ e. omega (arith, ap (λ (k : ℕ). occurs k w.holders) e) in
    ground (arith, other-IsRetired j i w (mark_failure (conn_at w.pool j)) n v)

Reach-IsRetired : {v w : World} (i : ℕ) → IsRetired i v → Reach v w → IsRetired i w
Reach-IsRetired i v here = v
Reach-IsRetired i v (next r st) = Step-IsRetired i st (Reach-IsRetired i v r)

-- A connection that is unhealthy and has no holder is never handed out again, whatever acquires,
-- releases and marks of held connections follow, and whether or not its backend can be reached again.
pub retired_for_good :
    (i now : ℕ) (reopened : ℕ → Bool) {v w : World}
    → IsRetired i v
    → Reach v w
    → ((conn_at w.pool i).health ≡ unhealthy)
      × ((backend_pool_acquire w.pool now reopened).0 ≢ some i)
retired_for_good i now reopened v r =
    let s = Reach-IsRetired i v r in (s.sick, acquire-refuses i _ now reopened s)

-- Every connection is in use or unhealthy.
abbrev pub NoneFree : List Conn → Type 0
NoneFree [] = Unit {0}
NoneFree (c ∷ cs) = ((c.in_use ≡ true) ⊎ (c.health ≡ unhealthy)) × NoneFree cs

acquire_conn-NoneFree :
    (now timeout : ℕ) (reopened : ℕ → Bool) (i : ℕ) (cs : List Conn)
    → (acquire_conn now timeout reopened i cs).0 ≡ none
    → NoneFree (acquire_conn now timeout reopened i cs).1
unfolding acquire_conn offer
acquire_conn-NoneFree now timeout reopened i [] h = tt
acquire_conn-NoneFree now timeout reopened i (c ∷ cs) h =
    ground (arith, health_cases c.health, acquire_conn-NoneFree now timeout reopened (suc i) cs)
  where
    health_cases : (h : Health) → (is_unhealthy h ≡ true) → h ≡ unhealthy
    health_cases unhealthy h = refl
    health_cases unknown h = cc
    health_cases healthy h = cc

-- `backend_pool_acquire` answers NULL only if every connection is in use or unhealthy, the ones that did
-- not reconnect among them; what it hands out was free, not unhealthy, and is now in use.
pub acquire-served :
    (p : Pool) (now : ℕ) (reopened : ℕ → Bool)
    → let (r, p') = backend_pool_acquire p now reopened in
      ((r ≡ none) × NoneFree p'.connections × (p'.active_count ≡ p.active_count))
      ⊎ ((i : ℕ) × (r ≡ some i)
          × (i < length p.connections)
          × ((conn_at p i).in_use ≡ false)
          × (is_unhealthy (conn_at p i).health ≡ false)
          × ((conn_at p' i).in_use ≡ true))
unfolding backend_pool_acquire
acquire-served p now reopened =
    elim (Option-cases (acquire_conn now p.idle_timeout_sec reopened 0 p.connections).0) [
      | inl e ↦ inl (
        ground arith,
        ground (arith, acquire_conn-NoneFree now p.idle_timeout_sec reopened 0 p.connections),
        ground arith,
      )
      | inr (i, e) ↦
          let c = acquire_conn-Counted now p.idle_timeout_sec reopened 0 p.connections in
          let g = acquire_conn-Given now p.idle_timeout_sec reopened 0 i p.connections in
          inr (
            i,
            ground arith,
            ground (arith, c),
            ground (arith, c, g),
            ground (arith, c, g),
            ground (arith, c, g),
          )
    ]
