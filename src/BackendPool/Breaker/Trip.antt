-- ===== src/BackendPool/Breaker/Trip.antt =====
-- How the circuit breaker of src/backend_pool.c opens, refuses and recovers.
use emme.Prelude.{
  ℕ, ◌+◌, ◌<◌, ◌≤◌, ◌≡◌, refl, ap, ◌∙◌, Bool, true, false, arith, ◌⊎◌, inl, inr, pos, List, [], ◌∷◌,
  length,
}
use emme.BackendPool.Breaker.{
  closed, open_state, half_open, BreakerConfig, Breaker, allow_request, record_success,
  record_failure,
}

-- Failures recorded one after the other, each at its time.
abbrev pub fail_all : Breaker → List ℕ → Breaker
fail_all b [] = b
fail_all b (now ∷ times) = fail_all (record_failure b now) times

-- The last of some times, or the one before them.
abbrev pub last_time : ℕ → List ℕ → ℕ
last_time t [] = t
last_time t (now ∷ times) = last_time now times

-- Failures of an open breaker change nothing.
fail_all_open : (b : Breaker) (times : List ℕ) → b.state ≡ open_state → fail_all b times ≡ b
unfolding record_failure
fail_all_open b [] h = refl
fail_all_open b (now ∷ times) h =
    let same : record_failure b now ≡ b = ground arith in rw same (fail_all_open b times h)

fail_once :
    (b : Breaker) (now t : ℕ)
    → b.is_enabled ≡ true
    → b.state ≡ closed
    → b.config.failure_threshold ≡ pos t
    → let b' = record_failure b now in
      (b'.is_enabled ≡ true)
      × (b'.config ≡ b.config)
      × (b'.failure_count ≡ b.failure_count + 1)
      × (b'.last_failure_time ≡ now)
      × (((b'.state ≡ closed) × (b.failure_count + 1 < t) × (b'.total_opens ≡ b.total_opens))
          ⊎ ((b'.state ≡ open_state)
              × (t ≤ b.failure_count + 1)
              × (b'.total_opens ≡ b.total_opens + 1)))
unfolding record_failure
fail_once b now t on c e = ground arith

-- A closed breaker below its threshold opens at the failure that reaches the threshold, no earlier and
-- no later, once; further failures do not count.
pub fail_all-opens :
    (b : Breaker) (times : List ℕ) (t : ℕ)
    → b.is_enabled ≡ true
    → b.state ≡ closed
    → b.config.failure_threshold ≡ pos t
    → b.failure_count < t
    → let b' = fail_all b times in
      ((b'.state ≡ closed)
        × (b.failure_count + length times < t)
        × (b'.failure_count ≡ b.failure_count + length times)
        × (b'.total_opens ≡ b.total_opens))
      ⊎ ((b'.state ≡ open_state)
          × (t ≤ b.failure_count + length times)
          × (b'.failure_count ≡ t)
          × (b'.total_opens ≡ b.total_opens + 1))
fail_all-opens b [] t on c e h = inl (c, omega arith, omega arith, refl)
fail_all-opens b (now ∷ times) t on c e h =
    let (on', e', n, l, branch) = fail_once b now t on c e in
    elim branch [
      | inl (c', below, o) ↦ ground (
        arith,
        fail_all-opens (record_failure b now) times t on' c'
            (ap (λ (k : BreakerConfig). k.failure_threshold) e' ∙ e) (omega arith),
      )
      | inr (c', above, o) ↦ ground (arith, fail_all_open (record_failure b now) times c')
    ]

-- Requests at the given times: the answers, and the breaker after.
abbrev pub ask_all : Breaker → List ℕ → List Bool × Breaker
ask_all b [] = ([], b)
ask_all b (now ∷ times) =
    let (allowed, b') = allow_request b now in
    let (rest, b'') = ask_all b' times in (allowed ∷ rest, b'')

abbrev pub AllBefore : ℕ → List ℕ → Type 0
AllBefore t [] = Unit {0}
AllBefore t (now ∷ times) = (now < t) × AllBefore t times

abbrev pub refusals : List ℕ → List Bool
refusals [] = []
refusals (now ∷ times) = false ∷ refusals times

-- An open breaker refuses every request before its recovery timeout has passed since the last failure,
-- and none of them changes it; the first request from then on passes and leaves it half-open.
pub ask_all-recovery :
    (b : Breaker) (times : List ℕ) (now r : ℕ)
    → b.is_enabled ≡ true
    → b.state ≡ open_state
    → b.config.recovery_timeout_seconds ≡ pos r
    → AllBefore (b.last_failure_time + r) times
    → b.last_failure_time + r ≤ now
    → (ask_all b times ≡ (refusals times, b))
      × (allow_request b now ≡ (true, record b { state = half_open; last_state_change = now }))
unfolding allow_request
ask_all-recovery b [] now r on s e before after = (refl, ground arith)
ask_all-recovery b (t ∷ times) now r on s e before after =
    let (rest, passed) = ask_all-recovery b times now r on s e before.1 after in
    let refused : allow_request b t ≡ (false, b) = ground arith in (rw (refused, rest), passed)

-- A success counted in one half-open period is kept over the failure that ends it: in the next
-- half-open period a single success closes the breaker.
pub one_success_closes :
    (b : Breaker) (t1 t2 t3 t4 r : ℕ)
    → b.is_enabled ≡ true
    → b.state ≡ half_open
    → b.success_count ≡ 0
    → b.config.recovery_timeout_seconds ≡ pos r
    → t2 + r ≤ t3
    → let reopened = record_failure (record_success b t1) t2 in
      let (allowed, retried) = allow_request reopened t3 in
      (reopened.state ≡ open_state)
      × (allowed ≡ true)
      × (retried.state ≡ half_open)
      × ((record_success retried t4).state ≡ closed)
unfolding record_success record_failure allow_request
one_success_closes b t1 t2 t3 t4 r on s z e h = ground arith
