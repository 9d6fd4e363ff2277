-- ===== src/BackendPool/Breaker.antt =====
-- The circuit breaker of src/backend_pool.c. A call of one of its functions is one step here, with no other
-- call between its atomic accesses, which are in Breaker/Accesses; `now` is what time(NULL) returns in it. The int counters are exact below INT_MAX, where the source's `+ 1` is defined.
pub mod Balance
pub mod Accesses
pub mod Trip
use emme.Prelude.{
  ℕ, ◌+◌, ◌-◌, Bool, true, false, if◌then◌else◌, ltb, leb, ℤ, pos, pos_part, neg_part, leb_ℤ,
  leb_diff, Option, none, some,
}

-- `circuit_breaker_state_t`
pub data BreakerState : Type 0 where
  closed open_state half_open : BreakerState

-- `circuit_breaker_config_t`
pub record BreakerConfig : Type 0 where
  pub enabled : Bool
  pub failure_threshold : ℤ
  pub recovery_timeout_seconds : ℤ

-- `circuit_breaker_t`, with the pool's flag `circuit_breaker_enabled`
pub record Breaker : Type 0 where
  pub state : BreakerState
  pub failure_count : ℕ
  pub success_count : ℕ
  pub last_failure_time : ℕ
  pub last_state_change : ℕ
  pub total_opens : ℕ
  pub total_closes : ℕ
  pub config : BreakerConfig
  pub is_enabled : Bool

-- `backend_pool_init_circuit_breaker`; `none` is -1.
unfoldable pub init_circuit_breaker : BreakerConfig → ℕ → Option Breaker
init_circuit_breaker c now =
    if c.enabled
    then some (record {
      state = closed;
      failure_count = 0;
      success_count = 0;
      last_failure_time = 0;
      last_state_change = now;
      total_opens = 0;
      total_closes = 0;
      config = c;
      is_enabled = true;
    })
    else none

-- `backend_pool_destroy_circuit_breaker`
unfoldable pub destroy_circuit_breaker : Breaker → Breaker
destroy_circuit_breaker b = record b { is_enabled = false }

-- The dispatch of `backend_pool_circuit_breaker_allow_request` on the state.
allow_in : BreakerState → Breaker → ℕ → Bool × Breaker
allow_in closed b now = (true, b)
allow_in open_state b now =
    if leb_diff b.config.recovery_timeout_seconds now b.last_failure_time
    then (true, record b { state = half_open; last_state_change = now })
    else (false, b)
allow_in half_open b now = (true, b)

unfoldable pub allow_request : Breaker → ℕ → Bool × Breaker
unfolding allow_in
allow_request b now = if b.is_enabled then allow_in b.state b now else (true, b)

-- `backend_pool_circuit_breaker_record_success`, where no other call comes between its accesses
success_in : BreakerState → Breaker → ℕ → Breaker
success_in half_open b now =
    if leb 2 (b.success_count + 1)
    then record b {
      state = closed;
      failure_count = 0;
      success_count = 0;
      last_state_change = now;
      total_closes = b.total_closes + 1;
    }
    else record b { success_count = b.success_count + 1 }
success_in closed b now = record b { failure_count = 0 }
success_in open_state b now = b

unfoldable pub record_success : Breaker → ℕ → Breaker
unfolding success_in
record_success b now = if b.is_enabled then success_in b.state b now else b

-- `backend_pool_circuit_breaker_record_failure`, where no other call comes between its accesses:
-- the counters, then the transition.
count_failure : Breaker → ℕ → Breaker
count_failure b now = record b { failure_count = b.failure_count + 1; last_failure_time = now }

trip : Breaker → ℕ → Breaker
trip b now = record b {
  state = open_state;
  last_state_change = now;
  total_opens = b.total_opens + 1;
}

failure_in : BreakerState → Breaker → ℕ → Breaker
unfolding count_failure trip
failure_in half_open b now = trip (count_failure b now) now
failure_in closed b now =
    let counted = count_failure b now in
    if leb_ℤ b.config.failure_threshold (pos counted.failure_count)
    then trip counted now
    else counted
failure_in open_state b now = b

unfoldable pub record_failure : Breaker → ℕ → Breaker
unfolding failure_in
record_failure b now = if b.is_enabled then failure_in b.state b now else b

-- `backend_pool_circuit_breaker_get_state`
unfoldable pub get_state : Breaker → BreakerState
get_state b = if b.is_enabled then b.state else closed
