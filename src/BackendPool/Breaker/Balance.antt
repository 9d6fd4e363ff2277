-- ===== src/BackendPool/Breaker/Balance.antt =====
-- The circuit breaker of src/backend_pool.c under any sequence of calls that do not overlap: its state and its counters.
use emme.Prelude.{ℕ, ◌+◌, ◌<◌, ◌≤◌, ◌≡◌, false, arith, some, ◌⊎◌, pos, leb_ℤ}
use emme.BackendPool.Breaker.{
  BreakerState, closed, open_state, half_open, BreakerConfig, Breaker, init_circuit_breaker,
  allow_request, record_success, record_failure,
}

-- A call of the breaker, at a time.
pub data Call : Type 0 where
  asks succeeds fails : ℕ → Call

abbrev pub step : Breaker → Call → Breaker
step b (asks now) = (allow_request b now).1
step b (succeeds now) = record_success b now
step b (fails now) = record_failure b now

pub data Reach (a : Breaker) : Breaker → Type 0 where
  here : Reach a a
  next : {b : Breaker} → Reach a b → (c : Call) → Reach a (step b c)

-- The openings that a state shows.
abbrev pub trips_left : BreakerState → ℕ
trips_left closed = 0
trips_left open_state = 1
trips_left half_open = 1

pub record IsBalanced (b : Breaker) : Type 0 where
  pub opens : b.total_closes + trips_left b.state ≤ b.total_opens
  pub few : b.success_count < 2
  pub under :
      b.state ≡ closed
      → (b.failure_count ≡ 0) ⊎ (leb_ℤ b.config.failure_threshold (pos b.failure_count) ≡ false)

asks-IsBalanced : (b : Breaker) (now : ℕ) → IsBalanced b → IsBalanced (allow_request b now).1
unfolding allow_request
asks-IsBalanced b now v = ground arith

succeeds-IsBalanced : (b : Breaker) (now : ℕ) → IsBalanced b → IsBalanced (record_success b now)
unfolding record_success
succeeds-IsBalanced b now v = ground arith

fails-IsBalanced : (b : Breaker) (now : ℕ) → IsBalanced b → IsBalanced (record_failure b now)
unfolding record_failure
fails-IsBalanced b now v = ground arith

step-IsBalanced : (b : Breaker) (c : Call) → IsBalanced b → IsBalanced (step b c)
step-IsBalanced b (asks now) v = asks-IsBalanced b now v
step-IsBalanced b (succeeds now) v = succeeds-IsBalanced b now v
step-IsBalanced b (fails now) v = fails-IsBalanced b now v

balance-Reach : {a b : Breaker} → IsBalanced a → Reach a b → IsBalanced b
balance-Reach v here = v
balance-Reach v (next r c) = step-IsBalanced _ c (balance-Reach v r)

-- In every sequence of calls from its initialisation on of which none begins while another is under way, the
-- breaker has been opened at least as often as it has been closed again, once more at least while it is open or
-- half-open; its success count stays below two; and while it is closed its failure count is zero or below the
-- configured threshold.
pub Reach-IsBalanced :
    (c : BreakerConfig) (now : ℕ) {a b : Breaker}
    → init_circuit_breaker c now ≡ some a
    → Reach a b
    → IsBalanced b
unfolding init_circuit_breaker
Reach-IsBalanced c now {a} e r = balance-Reach start r
  where
    start : IsBalanced a
    start = ground arith
