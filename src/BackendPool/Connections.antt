-- ===== src/BackendPool/Connections.antt =====
-- The connections of a backend pool in src/backend_pool.c. What the HTTP/2 client does on the wire is an
-- argument of each call: whether it can be initialised and whether it connects.
pub mod Search
pub mod Ownership
pub mod Service
use emme.Prelude.{
  ℕ, zero, suc, ◌+◌, ◌-◌, ◌%◌, ◌^◌, Bool, true, false, not, if◌then◌else◌, ltb, leb, ◌==◌, ◌&&◌,
  ◌||◌, ℤ, pos, pos_part, neg_part, leb_ℤ, Option, none, some, List, [], ◌∷◌, set, get_or, length,
}

-- `backend_health_t`
pub data Health : Type 0 where
  unknown healthy unhealthy : Health

abbrev pub is_unhealthy : Health → Bool
is_unhealthy unknown = false
is_unhealthy healthy = false
is_unhealthy unhealthy = true

abbrev pub is_healthy : Health → Bool
is_healthy unknown = false
is_healthy healthy = true
is_healthy unhealthy = false

-- `backend_conn_t` without its client and lock; the int counters are exact below INT_MAX.
pub record Conn : Type 0 where
  pub in_use : Bool
  pub last_used : ℕ
  pub health : Health
  pub consecutive_failures : ℕ
  pub consecutive_successes : ℕ

-- BACKEND_POOL_MAX_SIZE, BACKEND_POOL_IDLE_TIMEOUT_SEC
abbrev pub max_size : ℕ
max_size = 20

abbrev pub idle_timeout : ℕ
idle_timeout = 60

-- `backend_pool_s`: `size` is the length of `connections`, and the counts are the bits of an int.
pub record Pool : Type 0 where
  pub connections : List Conn
  pub active_count : ℕ
  pub idle_count : ℕ
  pub idle_timeout_sec : ℕ

-- `create_backend_connection`, where it succeeds
abbrev pub new_conn : ℕ → Conn
new_conn now = record {
  in_use = false;
  last_used = now;
  health = unknown;
  consecutive_failures = 0;
  consecutive_successes = 0;
}

-- The loop of `backend_pool_create`: it stops at the first connection that cannot be made.
unfoldable pub create_conns : (ℕ → Bool) → ℕ → ℕ → ℕ → List Conn
create_conns made now i zero = []
create_conns made now i (suc left) =
    let rest = create_conns made now (suc i) left in if made i then new_conn now ∷ rest else []

-- `backend_pool_create` with a host; `none` is NULL.
unfoldable pub backend_pool_create : (ℕ → Bool) → ℤ → ℕ → Option Pool
unfolding create_conns
backend_pool_create made pool_size now =
    if leb_ℤ pool_size (pos 0) || not (leb_ℤ pool_size (pos max_size))
    then none
    else let conns = create_conns made now 0 (pos_part pool_size) in
      some (record {
        connections = conns;
        active_count = 0;
        idle_count = length conns;
        idle_timeout_sec = idle_timeout;
      })

-- How one connection answers the search of `backend_pool_acquire`.
pub data Offer : Type 0 where
  taken passed : Conn → Offer

-- The body of the loop; `reopened` is whether the client is initialised and connects again.
unfoldable pub offer : ℕ → ℕ → Bool → Conn → Offer
offer now timeout reopened c =
    if not c.in_use && not (is_unhealthy c.health)
    then if ltb (c.last_used + timeout) now
      then if reopened
        then taken (record c { last_used = now; in_use = true })
        else passed (record c { health = unhealthy })
      else taken (record c { in_use = true })
    else passed c

unfoldable pub acquire_conn : ℕ → ℕ → (ℕ → Bool) → ℕ → List Conn → Option ℕ × List Conn
acquire_conn now timeout reopened i [] = (none, [])
acquire_conn now timeout reopened i (c ∷ cs) =
    let rest = acquire_conn now timeout reopened (suc i) cs in
    elim (offer now timeout (reopened i) c) [
      | taken c' ↦ (some i, c' ∷ cs)
      | passed c' ↦ (rest.0, c' ∷ rest.1)
    ]

-- atomic_fetch_add and atomic_fetch_sub of an int by one
abbrev pub add_one_int : ℕ → ℕ
add_one_int n = (n + 1) % 2 ^ 32

abbrev pub sub_one_int : ℕ → ℕ
sub_one_int n = (n + 2 ^ 32 - 1) % 2 ^ 32

acquired : Pool → Option ℕ × List Conn → Option ℕ × Pool
acquired p (none, conns) = (none, record p { connections = conns })
acquired p (some i, conns) = (
  some i,
  record p {
    connections = conns;
    active_count = add_one_int p.active_count;
    idle_count = sub_one_int p.idle_count;
  },
)

-- `backend_pool_acquire`: the index of the connection, `none` for NULL, and the pool after.
unfoldable pub backend_pool_acquire : Pool → ℕ → (ℕ → Bool) → Option ℕ × Pool
unfolding acquired
backend_pool_acquire p now reopened =
    acquired p (acquire_conn now p.idle_timeout_sec reopened 0 p.connections)

abbrev pub conn_at : Pool → ℕ → Conn
conn_at p i = get_or p.connections i (new_conn 0)

-- `backend_pool_release` of the connection at an index
unfoldable pub backend_pool_release : Pool → ℕ → ℕ → Pool
backend_pool_release p i now = record p {
  connections = set p.connections i (record (conn_at p i) { in_use = false; last_used = now });
  active_count = sub_one_int p.active_count;
  idle_count = add_one_int p.idle_count;
}

-- `backend_pool_mark_success`
unfoldable pub mark_success : Conn → Conn
mark_success c = record c {
  consecutive_failures = 0;
  consecutive_successes = c.consecutive_successes + 1;
  health =
      if leb 2 (c.consecutive_successes + 1) && not (is_healthy c.health)
      then healthy
      else c.health;
}

-- `backend_pool_mark_failure`
unfoldable pub mark_failure : Conn → Conn
mark_failure c = record c {
  consecutive_successes = 0;
  consecutive_failures = c.consecutive_failures + 1;
  health = if leb 3 (c.consecutive_failures + 1) then unhealthy else c.health;
}

-- The two of them on the connection at an index
abbrev pub mark : (Conn → Conn) → Pool → ℕ → Pool
mark f p i = record p { connections = set p.connections i (f (conn_at p i)) }

-- `backend_pool_get_healthy_count`, its loop
unfoldable pub count_healthy : List Conn → ℕ
count_healthy [] = 0
count_healthy (c ∷ cs) = (if is_healthy c.health then 1 else 0) + count_healthy cs

-- `backend_pool_has_healthy_connection`
unfoldable pub has_healthy_connection : Pool → Bool
unfolding count_healthy
has_healthy_connection p = ltb 0 (count_healthy p.connections)
