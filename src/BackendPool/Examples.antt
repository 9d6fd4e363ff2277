-- ===== src/BackendPool/Examples.antt =====
-- Runs of the breaker, the pool and the health checker of src/backend_pool.c, and their theorems at
-- concrete inputs.
use emme.Prelude.{
  ℕ, ◌+◌, ◌<◌, ◌≤◌, ◌≡◌, refl, some, none, arith, List, [], ◌∷◌, true, false, ◌⊎◌, length, Bool,
  occurs, pos, if◌then◌else◌,
}
use emme.BackendPool.Breaker.{
  closed, open_state, half_open, BreakerConfig, Breaker, init_circuit_breaker, allow_request,
}
use emme.BackendPool.Breaker.Balance.{IsBalanced, step, asks, succeeds, fails, Reach-IsBalanced}
use emme.BackendPool.Breaker.Balance
use emme.BackendPool.Breaker.Trip.{fail_all, fail_all-opens, ask_all, ask_all-recovery}
use emme.BackendPool.Connections.{
  unknown, unhealthy, is_unhealthy, Pool, new_conn, backend_pool_create, offer, acquire_conn,
  backend_pool_acquire, conn_at,
}
use emme.BackendPool.Connections.Ownership.{
  World, acquire, release, succeed, fail, after_acquire, uses, Reach-owned,
}
use emme.BackendPool.Connections.Search.{in_use_count}
use emme.BackendPool.Connections.Ownership
use emme.BackendPool.Connections.Service.{IsRetired, NoneFree, acquire-served}
use emme.BackendPool.HealthCheck.{HealthConfig, Checker, start_health_checker}
use emme.BackendPool.HealthCheck.Verdicts.{Round, run_rounds, any_missing, run_rounds-verdict}

abbrev defaults : BreakerConfig
defaults = record { enabled = true; failure_threshold = pos 5; recovery_timeout_seconds = pos 30 }

abbrev started : Breaker
started = record {
  state = closed;
  failure_count = 0;
  success_count = 0;
  last_failure_time = 0;
  last_state_change = 100;
  total_opens = 0;
  total_closes = 0;
  config = defaults;
  is_enabled = true;
}

abbrev recovering : Breaker
recovering = record started { state = half_open; total_opens = 1; failure_count = 5 }

abbrev tripped : Breaker
tripped = record started {
  state = open_state;
  total_opens = 1;
  failure_count = 5;
  last_failure_time = 105;
}

Reach-IsBalanced_example : IsBalanced (step (step started (fails 101)) (asks 102))
unfolding init_circuit_breaker
Reach-IsBalanced_example =
    Reach-IsBalanced defaults 100 {a = started} {b = step (step started (fails 101)) (asks 102)}
      refl (Balance.next (Balance.next Balance.here (fails 101)) (asks 102))

-- Half-open, with one success behind it
abbrev probing : Breaker
probing = record started { state = half_open; success_count = 1; total_opens = 1 }

fail_all-opens_example :
    let b' = fail_all started (101 ∷ 102 ∷ 103 ∷ 104 ∷ 105 ∷ 106 ∷ []) in
    ((b'.state ≡ closed) × (0 + 6 < 5) × (b'.failure_count ≡ 0 + 6) × (b'.total_opens ≡ 0))
    ⊎ ((b'.state ≡ open_state) × (5 ≤ 0 + 6) × (b'.failure_count ≡ 5) × (b'.total_opens ≡ 0 + 1))
fail_all-opens_example =
    fail_all-opens started (101 ∷ 102 ∷ 103 ∷ 104 ∷ 105 ∷ 106 ∷ []) 5 refl refl refl (omega arith)

ask_all-recovery_example :
    (ask_all tripped (110 ∷ 134 ∷ []) ≡ (false ∷ false ∷ [], tripped))
    × (allow_request tripped 135
        ≡ (true, record tripped { state = half_open; last_state_change = 135 }))
ask_all-recovery_example =
    ask_all-recovery tripped (110 ∷ 134 ∷ []) 135 30 refl refl refl (omega arith) (omega arith)

-- A pool of two connections, the second of them retired.
abbrev two_conns : Pool
two_conns = record {
  connections = new_conn 10 ∷ new_conn 10 ∷ [];
  active_count = 0;
  idle_count = 2;
  idle_timeout_sec = 60;
}

abbrev all_made : ℕ → Bool
all_made i = true

abbrev none_reopened : ℕ → Bool
none_reopened i = false

abbrev fresh_world : World
fresh_world = record { pool = two_conns; holders = [] }

abbrev one_held : World
one_held = after_acquire fresh_world (backend_pool_acquire two_conns 20 none_reopened)

first_is_given : (backend_pool_acquire two_conns 20 none_reopened).0 ≡ some 0
unfolding backend_pool_acquire acquire_conn offer
first_is_given = refl

late_is_refused : (backend_pool_acquire two_conns 90 none_reopened).0 ≡ none
unfolding backend_pool_acquire acquire_conn offer
late_is_refused = refl

Reach-owned_example :
    (one_held.pool.active_count ≡ in_use_count one_held.pool.connections)
    × (one_held.pool.idle_count + one_held.pool.active_count ≡ length one_held.pool.connections)
    × (length one_held.pool.connections ≤ 20)
    × (occurs 0 one_held.holders ≤ 1)
    × (occurs 0 one_held.holders ≡ uses one_held.pool 0)
unfolding backend_pool_create
Reach-owned_example =
    Reach-owned all_made (pos 2) 10 0 {p = two_conns} {w = one_held} refl
      (Ownership.next Ownership.here (acquire fresh_world 20 none_reopened))

acquire-served_example :
    let (r, p') = backend_pool_acquire two_conns 90 none_reopened in
    ((r ≡ none) × NoneFree p'.connections × (p'.active_count ≡ two_conns.active_count))
    ⊎ ((i : ℕ) × (r ≡ some i)
        × (i < 2)
        × ((conn_at two_conns i).in_use ≡ false)
        × (is_unhealthy (conn_at two_conns i).health ≡ false)
        × ((conn_at p' i).in_use ≡ true))
acquire-served_example = acquire-served two_conns 90 none_reopened

abbrev half_retired : World
half_retired = record {
  pool = record two_conns {
    connections = new_conn 10 ∷ record (new_conn 10) { health = unhealthy } ∷ [];
  };
  holders = [];
}

half_retired-IsRetired : IsRetired 1 half_retired
half_retired-IsRetired = record { present = omega arith; free = refl; sick = refl; unheld = refl }

abbrev half_retired_held : World
half_retired_held =
    after_acquire half_retired (backend_pool_acquire half_retired.pool 20 none_reopened)

abbrev default_checks : HealthConfig
default_checks = record { enabled = true; unhealthy_threshold = pos 3; healthy_threshold = pos 2 }

abbrev new_checker : Checker
new_checker = record {
  config = default_checks;
  running = true;
  consecutive_failures = 0;
  consecutive_successes = 0;
  health = unknown;
  last_check_time = 0;
  total_checks = 0;
  failed_checks = 0;
}

abbrev good_round : ℕ → Round
good_round t = record {
  now = t;
  pool = two_conns;
  reopened = all_made;
  reply = record { sent = pos 1; status = pos 200 };
}

abbrev good_rounds : List Round
good_rounds = good_round 20 ∷ good_round 30 ∷ good_round 40 ∷ []

run_rounds-verdict_example :
    (run_rounds new_checker good_rounds).health
    ≡ (if any_missing good_rounds then unhealthy else unknown)
unfolding start_health_checker
run_rounds-verdict_example =
    run_rounds-verdict default_checks good_rounds {k = new_checker} refl
      (record { u = refl; h = refl })
