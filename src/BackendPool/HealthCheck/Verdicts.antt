-- ===== src/BackendPool/HealthCheck/Verdicts.antt =====
-- The verdicts that the health checker of src/backend_pool.c can reach.
use emme.Prelude.{
  ℕ, ◌+◌, ◌≡◌, refl, Bool, true, false, not, if◌then◌else◌, ◌||◌, pos, leb_ℤ, Option, none, some,
  List, [], ◌∷◌, length, arith, ◌⊎◌,
}
use emme.BackendPool.Connections.{unknown, unhealthy, Pool, backend_pool_acquire}
use emme.BackendPool.HealthCheck.{
  HealthConfig, Checker, start_health_checker, handle_health_check_success,
  handle_health_check_failure, Reply, perform_health_check, round_without_connection,
  round_with_reply, health_check_round,
}

-- What a turn met: the time, the pool (other callers use it in between), the client's luck, the answer.
pub record Round : Type 0 where
  pub now : ℕ
  pub pool : Pool
  pub reopened : ℕ → Bool
  pub reply : Reply

abbrev pub got : Round → Option ℕ
got r = (backend_pool_acquire r.pool r.now r.reopened).0

abbrev pub run_rounds : Checker → List Round → Checker
run_rounds k [] = k
run_rounds k (r ∷ rs) = run_rounds (health_check_round k r.pool r.now r.reopened r.reply).0 rs

-- Some turn found no connection.
abbrev pub is_missing : Option ℕ → Bool
is_missing none = true
is_missing (some i) = false

abbrev pub any_missing : List Round → Bool
any_missing [] = false
any_missing (r ∷ rs) = is_missing (got r) || any_missing rs

-- Turns that found no connection or whose check failed.
abbrev pub is_failed : Round → Bool
is_failed r = is_missing (got r) || not (perform_health_check r.reply)

abbrev pub failures_in : List Round → ℕ
failures_in [] = 0
failures_in (r ∷ rs) = (if is_failed r then 1 else 0) + failures_in rs

-- One of the two runs of results is always empty.
record IsIdle (k : Checker) : Type 0 where
  one_run : (k.consecutive_failures ≡ 0) ⊎ (k.consecutive_successes ≡ 0)
  on : k.running ≡ true

-- No threshold is met by an empty run and by a run of one.
pub record IsOrdinary (c : HealthConfig) : Type 0 where
  pub u : leb_ℤ (pos 2) c.unhealthy_threshold ≡ true
  pub h : leb_ℤ (pos 2) c.healthy_threshold ≡ true

round-health :
    (k : Checker) (r : Round)
    → IsOrdinary k.config
    → IsIdle k
    → let k' = (health_check_round k r.pool r.now r.reopened r.reply).0 in
      IsIdle k'
      × (k'.config ≡ k.config)
      × (k'.health ≡ (if is_missing (got r) then unhealthy else k.health))
unfolding health_check_round round_without_connection round_with_reply
round-health k r c i = ground arith

run_rounds-health :
    (k : Checker) (rs : List Round)
    → IsOrdinary k.config
    → IsIdle k
    → (run_rounds k rs).health ≡ (if any_missing rs then unhealthy else k.health)
run_rounds-health k [] c i = refl
run_rounds-health k (r ∷ rs) c i =
    let (i', same, v) = round-health k r c i in
    let k' = (health_check_round k r.pool r.now r.reopened r.reply).0 in
    ground (arith, v, run_rounds-health k' rs (ordinary_of k k' c same) i')
  where
    ordinary_of :
        (k k' : Checker) → IsOrdinary k.config → k'.config ≡ k.config → IsOrdinary k'.config
    ordinary_of k k' c e = rw e c

-- With both thresholds at least two, as the defaults are, no run of checks ever marks the backend
-- healthy, and no run of failed checks marks it unhealthy: the health that the checker reports is
-- unhealthy from the first turn that found no free connection on, and unknown until then.
pub run_rounds-verdict :
    (c : HealthConfig) (rs : List Round) {k : Checker}
    → start_health_checker c ≡ some k
    → IsOrdinary c
    → (run_rounds k rs).health ≡ (if any_missing rs then unhealthy else unknown)
unfolding start_health_checker
run_rounds-verdict c rs {k} e o = ground (
  arith,
  run_rounds-health k rs (ground (arith, o)) (record { one_run = ground arith; on = ground arith }),
)

round-counts :
    (k : Checker) (r : Round)
    → k.running ≡ true
    → let k' = (health_check_round k r.pool r.now r.reopened r.reply).0 in
      (k'.running ≡ true)
      × (k'.total_checks ≡ k.total_checks + 1)
      × (k'.failed_checks ≡ k.failed_checks + (if is_failed r then 1 else 0))
unfolding health_check_round round_without_connection round_with_reply handle_health_check_success
    handle_health_check_failure
round-counts k r on = ground arith

run_rounds-counts :
    (k : Checker) (rs : List Round)
    → k.running ≡ true
    → let k' = run_rounds k rs in
      (k'.total_checks ≡ k.total_checks + length rs)
      × (k'.failed_checks ≡ k.failed_checks + failures_in rs)
run_rounds-counts k [] on = omega arith
run_rounds-counts k (r ∷ rs) on =
    let c = round-counts k r on in
    let rest = run_rounds-counts (health_check_round k r.pool r.now r.reopened r.reply).0 rs c.0 in
    omega (arith, c, rest)

-- Since its start the checker has counted every turn, and as failed exactly the turns that found no free
-- connection or whose request was not sent or not answered with a status from 200 to 399.
pub run_rounds-totals :
    (c : HealthConfig) (rs : List Round) {k : Checker}
    → start_health_checker c ≡ some k
    → let k' = run_rounds k rs in
      (k'.total_checks ≡ length rs) × (k'.failed_checks ≡ failures_in rs)
unfolding start_health_checker
run_rounds-totals c rs {k} e = ground (arith, run_rounds-counts k rs)
