-- ===== src/BackendPool/Breaker/Accesses.antt =====
-- The circuit breaker of src/backend_pool.c one atomic access at a time: no lock is held over a call, so those of
-- two threads may interleave. What the clock says to a call is its `now`.
use emme.Prelude.{
  ℕ, suc, zero, ◌+◌, Bool, true, false, if◌then◌else◌, leb, leb_ℤ, pos, List, [], ◌∷◌,
}
use emme.BackendPool.Breaker.{BreakerState, closed, open_state, half_open, Breaker}

-- Where a call stands: which access of it comes next, with what the accesses before have loaded
pub data Point : Type 0 where
  success_starts success_counts success_closes : Point
  closing_failures closing_successes closing_change closing_total : Point
  failures_reset : Point
  failure_starts opens opening_change opening_total : Point
  failure_counts : BreakerState → Point
  failure_timed : BreakerState → ℕ → Point
  returned : Point

-- The access at a point, in a call of an enabled breaker
unfoldable pub access : ℕ → Point × Breaker → Point × Breaker
access now (success_starts, b) = (
  elim b.state [ half_open ↦ success_counts | closed ↦ failures_reset | open_state ↦ returned ],
  b,
)
access now (success_counts, b) = (
  if leb 2 (b.success_count + 1) then success_closes else returned,
  record b { success_count = b.success_count + 1 },
)
access now (success_closes, b) = (closing_failures, record b { state = closed })
access now (closing_failures, b) = (closing_successes, record b { failure_count = 0 })
access now (closing_successes, b) = (closing_change, record b { success_count = 0 })
access now (closing_change, b) = (closing_total, record b { last_state_change = now })
access now (closing_total, b) = (returned, record b { total_closes = b.total_closes + 1 })
access now (failures_reset, b) = (returned, record b { failure_count = 0 })
access now (failure_starts, b) = (
  elim b.state [
    | half_open ↦ failure_counts half_open
    | closed ↦ failure_counts closed
    | open_state ↦ returned
  ],
  b,
)
access now (failure_counts s, b) =
    (failure_timed s (b.failure_count + 1), record b { failure_count = b.failure_count + 1 })
access now (failure_timed s failures, b) = (
  elim s [
    | half_open ↦ opens
    | closed ↦ if leb_ℤ b.config.failure_threshold (pos failures) then opens else returned
    | open_state ↦ returned
  ],
  record b { last_failure_time = now },
)
access now (opens, b) = (opening_change, record b { state = open_state })
access now (opening_change, b) = (opening_total, record b { last_state_change = now })
access now (opening_total, b) = (returned, record b { total_opens = b.total_opens + 1 })
access now (returned, b) = (returned, b)

-- Some accesses of one call with none of another call between them
unfoldable pub alone : ℕ → ℕ → Point × Breaker → Point × Breaker
alone zero now c = c
alone (suc n) now c = alone n now (access now c)

-- Two calls at once: each entry says whether the first one takes the next access.
unfoldable pub interleave : List Bool → ℕ → Point → Point → Breaker → Point × Point × Breaker
interleave [] now p q b = (p, q, b)
interleave (true ∷ turns) now p q b = let c = access now (p, b) in interleave turns now c.0 q c.1
interleave (false ∷ turns) now p q b = let c = access now (q, b) in interleave turns now p c.0 c.1

-- Both load the state, both count, then each of them closes.
abbrev pub both_close : List Bool
both_close =
    true ∷ false ∷ true ∷ false ∷ true ∷ true ∷ true ∷ true ∷ true ∷ false ∷ false ∷ false ∷ false
    ∷ false ∷ []
