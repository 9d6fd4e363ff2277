-- ===== src/Router/Lease.antt =====
-- `proxy_to_backend_pooled` of src/router.c: its connection, its result and its response.
use emme.Prelude.{
  ℕ, zero, suc, ◌≤◌, ◌<◌, ◌≡◌, ◌≢◌, refl, Bool, false, if◌then◌else◌, ltb, ◌==◌, none, some, List,
  [], ◌∷◌, set, get_or, length, length-set, get_or-set_self, get_or-set_ne, arith, Option-cases,
  Bool-cases, inl, inr,
}
use emme.Config.Types.{Route}
use emme.Http2Response.{Http2Response}
use emme.BackendPool.Breaker.{Breaker, allow_request}
use emme.BackendPool.Connections.{
  Conn, Pool, new_conn, conn_at, acquire_conn, backend_pool_acquire, backend_pool_release,
  mark_success, mark_failure,
}
use emme.BackendPool.Connections.Ownership.{IsCounted}
use emme.BackendPool.Connections.Search.{in_use-le, acquire_conn-Counted, acquire_conn-Given}
use emme.Router.Proxy.{Backend, Exchange, proxy_to_backend_pooled, forward_on, settle, is_answered}

-- The connection that is settled is free, and no other is touched.
settle-uses :
    (answered : Bool) (b : Backend) (i j later : ℕ)
    → i < length b.pool.connections
    → (conn_at (settle answered b i later).pool j).in_use
      ≡ (if j == i then false else (conn_at b.pool j).in_use)
unfolding settle backend_pool_release
settle-uses answered b i j later h =
    let f = if answered then mark_success else mark_failure in
    let marked = set b.pool.connections i (f (conn_at b.pool i)) in
    let freed = record (get_or marked i (new_conn 0)) { in_use = false; last_used = later } in
    ground (
      arith,
      length-set b.pool.connections i (f (conn_at b.pool i)),
      get_or-set_self marked i freed (new_conn 0),
      get_or-set_ne marked i j freed (new_conn 0),
      get_or-set_ne b.pool.connections i j (f (conn_at b.pool i)) (new_conn 0),
    )

get_or-default : (cs : List Conn) (j : ℕ) → length cs ≤ j → get_or cs j (new_conn 0) ≡ new_conn 0
get_or-default [] j h = refl
get_or-default (c ∷ cs) zero h = absurd (omega arith)
get_or-default (c ∷ cs) (suc j) h = get_or-default cs j (omega arith)

-- The pool as it was: every connection is in use or free as before, and the counters agree with that.
pub record Returned (p p' : Pool) (j : ℕ) : Type 0 where
  pub flag : (conn_at p' j).in_use ≡ (conn_at p j).in_use
  pub active : p'.active_count ≡ p.active_count
  pub idle : p'.idle_count ≡ p.idle_count

-- What a search that finds nothing, and one that finds connection `i`, does to connection `j`
acquire-missed :
    (p : Pool) (now j : ℕ) (reopened : ℕ → Bool)
    → (acquire_conn now p.idle_timeout_sec reopened 0 p.connections).0 ≡ none
    → Returned p (backend_pool_acquire p now reopened).1 j
unfolding backend_pool_acquire
acquire-missed p now j reopened e =
    let counted = acquire_conn-Counted now p.idle_timeout_sec reopened 0 p.connections in
    record {
      flag = elim (Bool-cases (ltb j (length p.connections))) [
        | inl l ↦
            ground (arith, e, acquire_conn-Given now p.idle_timeout_sec reopened 0 j p.connections)
        | inr g ↦ ground (
          arith,
          e,
          counted,
          get_or-default p.connections j,
          get_or-default (acquire_conn now p.idle_timeout_sec reopened 0 p.connections).1 j,
        )
      ];
      active = ground (arith, e);
      idle = ground (arith, e);
    }

acquire-found :
    (p : Pool) (now i j : ℕ) (reopened : ℕ → Bool)
    → (acquire_conn now p.idle_timeout_sec reopened 0 p.connections).0 ≡ some i
    → let p' = (backend_pool_acquire p now reopened).1 in
      (i < length p'.connections)
      × ((conn_at p i).in_use ≡ false)
      × (j ≢ i → (conn_at p' j).in_use ≡ (conn_at p j).in_use)
unfolding backend_pool_acquire
acquire-found p now i j reopened e =
    let search = acquire_conn now p.idle_timeout_sec reopened 0 p.connections in
    let counted = acquire_conn-Counted now p.idle_timeout_sec reopened 0 p.connections in
    (
      ground (arith, e, counted),
      ground
          (arith, e, counted, acquire_conn-Given now p.idle_timeout_sec reopened 0 i p.connections),
      elim (Bool-cases (ltb j (length p.connections))) [
        | inl l ↦
            ground (arith, e, acquire_conn-Given now p.idle_timeout_sec reopened 0 j p.connections)
        | inr g ↦
            ground (arith, e, counted, get_or-default p.connections j, get_or-default search.1 j)
      ],
    )

settled :
    (answered : Bool) (p : Pool) (breaker : Breaker) (now later i j : ℕ) (reopened : ℕ → Bool)
    → IsCounted p
    → (acquire_conn now p.idle_timeout_sec reopened 0 p.connections).0 ≡ some i
    → let p' = (backend_pool_acquire p now reopened).1 in
      Returned p (settle answered (record { breaker = breaker; pool = p' }) i later).pool j
unfolding backend_pool_acquire settle backend_pool_release
settled answered p breaker now later i j reopened v e =
    let found = acquire-found p now i j reopened e in
    let p' = (backend_pool_acquire p now reopened).1 in
    let small = in_use-le p.connections in
    record {
      flag = ground (
        arith,
        found,
        settle-uses answered (record { breaker = breaker; pool = p' }) i j later found.0,
      );
      active = ground (arith, e, v, small);
      idle = ground (arith, e, v, small);
    }

-- Whatever the breaker, the pool and the backend do, `proxy_to_backend_pooled` leaves every connection in
-- use or free as it found it and the counters of the pool as they were, so that no connection is lost.
pub proxy_to_backend_pooled-Returned :
    (route : Route) (resp : Http2Response) (b : Backend) (now later j : ℕ) (reopened : ℕ → Bool)
    (e : Exchange)
    → IsCounted b.pool
    → Returned b.pool (proxy_to_backend_pooled route resp b now later reopened e).2.pool j
unfolding proxy_to_backend_pooled forward_on backend_pool_acquire
proxy_to_backend_pooled-Returned route resp b now later j reopened e v =
    elim (Bool-cases (allow_request b.breaker now).0) [
      | inr refused ↦ record {
        flag = ground (arith, refused);
        active = ground (arith, refused);
        idle = ground (arith, refused);
      }
      | inl allowed ↦
          elim (Option-cases
            (acquire_conn now b.pool.idle_timeout_sec reopened 0 b.pool.connections).0) [
              | inl n ↦
                  let m = acquire-missed b.pool now j reopened n in
                  record {
                    flag = ground (arith, allowed, n, m);
                    active = ground (arith, allowed, n, m);
                    idle = ground (arith, allowed, n, m);
                  }
              | inr (i, f) ↦
                  let m =
                    settled (is_answered e) b.pool (allow_request b.breaker now).1 now later i j
                      reopened v f in
                  record {
                    flag = ground (arith, allowed, f, m);
                    active = ground (arith, allowed, f, m);
                    idle = ground (arith, allowed, f, m);
                  }
            ]
    ]
