-- ===== src/BackendPool/HealthCheck.antt =====
-- The health checker of src/backend_pool.c: one turn of its thread's loop at a time. What the backend
-- answers is an argument; the int and long counters are exact below their maxima.
pub mod Verdicts
use emme.Prelude.{
  ℕ, ◌+◌, ◌-◌, Bool, true, false, not, if◌then◌else◌, ltb, leb, ◌&&◌, ℤ, pos, negsuc, pos_part,
  neg_part, leb_ℤ, Option, none, some, List, [], ◌∷◌,
}
use emme.BackendPool.Connections.{
  Health, unknown, healthy, unhealthy, is_healthy, is_unhealthy, Pool, backend_pool_acquire,
  backend_pool_release, mark, mark_success, mark_failure, has_healthy_connection,
}

-- `health_check_config_t`; the path and the times do not enter the verdict.
pub record HealthConfig : Type 0 where
  pub enabled : Bool
  pub unhealthy_threshold : ℤ
  pub healthy_threshold : ℤ

-- `health_checker_t`
pub record Checker : Type 0 where
  pub config : HealthConfig
  pub running : Bool
  pub consecutive_failures : ℕ
  pub consecutive_successes : ℕ
  pub health : Health
  pub last_check_time : ℕ
  pub total_checks : ℕ
  pub failed_checks : ℕ

-- `health_checker_start` and `backend_pool_start_health_checker`, where the thread starts; `none` is -1.
unfoldable pub start_health_checker : HealthConfig → Option Checker
start_health_checker c =
    if c.enabled
    then some (record {
      config = c;
      running = true;
      consecutive_failures = 0;
      consecutive_successes = 0;
      health = unknown;
      last_check_time = 0;
      total_checks = 0;
      failed_checks = 0;
    })
    else none

-- `health_checker_stop`
unfoldable pub stop_health_checker : Checker → Checker
stop_health_checker k = record k { running = false }

-- `handle_health_check_success`, without the mark of the connection
unfoldable pub handle_health_check_success : Checker → Checker
handle_health_check_success k =
    let successes = k.consecutive_successes + 1 in
    record k {
      consecutive_failures = 0;
      consecutive_successes = successes;
      health =
          if leb_ℤ k.config.unhealthy_threshold (pos k.consecutive_failures)
            && leb_ℤ k.config.healthy_threshold (pos successes)
            && not (is_healthy k.health)
          then healthy
          else k.health;
    }

-- `handle_health_check_failure`, without the mark of the connection
unfoldable pub handle_health_check_failure : Checker → Checker
handle_health_check_failure k =
    let failures = k.consecutive_failures + 1 in
    record k {
      consecutive_successes = 0;
      consecutive_failures = failures;
      health =
          if leb_ℤ k.config.healthy_threshold (pos k.consecutive_successes)
            && leb_ℤ k.config.unhealthy_threshold (pos failures)
            && not (is_unhealthy k.health)
          then unhealthy
          else k.health;
    }

-- `perform_health_check`: what sending the request and receiving the response return.
pub record Reply : Type 0 where
  pub sent : ℤ
  pub status : ℤ

unfoldable pub perform_health_check : Reply → Bool
perform_health_check r =
    leb_ℤ (pos 0) r.sent && leb_ℤ (pos 200) r.status && not (leb_ℤ (pos 400) r.status)

-- The counters of a turn of `health_check_thread`.
abbrev pub count_check : ℕ → Bool → Checker → Checker
count_check now success k = record k {
  total_checks = k.total_checks + 1;
  failed_checks = if success then k.failed_checks else k.failed_checks + 1;
  last_check_time = now;
}

-- The branch with no connection
unfoldable pub round_without_connection : ℕ → Checker → Checker
round_without_connection now k = count_check now false (record k {
  consecutive_failures = k.consecutive_failures + 1;
  consecutive_successes = 0;
  health = unhealthy;
})

-- The branch with one
unfoldable pub round_with_reply : ℕ → Reply → Checker → Checker
unfolding perform_health_check handle_health_check_success handle_health_check_failure
round_with_reply now reply k =
    if perform_health_check reply
    then count_check now true (handle_health_check_success k)
    else count_check now false (handle_health_check_failure k)

round_on : Option ℕ × Pool → ℕ → Reply → Checker → Checker × Pool
round_on (none, p) now reply k = (round_without_connection now k, p)
round_on (some i, p) now reply k = (
  round_with_reply now reply k,
  backend_pool_release
      (mark (if perform_health_check reply then mark_success else mark_failure) p i) i now,
)

-- The body of the loop of `health_check_thread`, without the metrics and the sleep.
unfoldable pub health_check_round : Checker → Pool → ℕ → (ℕ → Bool) → Reply → Checker × Pool
unfolding round_on
health_check_round k p now reopened reply =
    if k.running then round_on (backend_pool_acquire p now reopened) now reply k else (k, p)

-- `backend_pool_get_overall_health`: `none` where no checker is enabled.
unfoldable pub get_overall_health : Option Checker → Pool → Health
get_overall_health (some k) p = k.health
get_overall_health none p = if has_healthy_connection p then healthy else unknown
