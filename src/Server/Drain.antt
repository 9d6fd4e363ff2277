-- ===== src/Server/Drain.antt =====
-- The end of a server of src/server.c: signals, and the loop that waits for the requests in flight.
use emme.Prelude.{
  ℕ, Timespec, ◌+◌, ◌*◌, ◌^◌, ◌≡◌, ◌<◌, ◌≤◌, refl, Bool, true, false, if◌then◌else◌, ◌==◌, Option,
  some, List, [], ◌∷◌, length, arith, Bool-cases, inl, inr,
}
use emme.Server.{
  draining, forced, is_running, ShutdownContext, is_past, Look, drain_loop, handle_signal,
}

-- A time in nanoseconds, and what clock_gettime gives: less than a second of them beside the seconds
abbrev pub nanos : Timespec → ℕ
nanos t = t.tv_sec * 10 ^ 9 + t.tv_nsec

abbrev pub IsClock : Timespec → Type 0
IsClock t = t.tv_nsec < 10 ^ 9

-- Looks at a clock that advances by 100 milliseconds at least from one to the next, as long as nanosleep sleeps
pub data Advancing : ℕ → List Look → Type 0 where
  no_look : {from : ℕ} → Advancing from []
  one_look :
      {from : ℕ} {ls : List Look} (l : Look)
      → IsClock l.now
      → from ≤ nanos l.now
      → Advancing (nanos l.now + 10 ^ 8) ls
      → Advancing from (l ∷ ls)

-- How the looks end: at a first one without requests, or behind the deadline with requests, which forces
pub data Ended (deadline : Timespec) : List Look → Bool → Type 0 where
  is_empty : (l : Look) (ls : List Look) → l.count ≡ 0 → Ended deadline (l ∷ ls) false
  is_overdue :
      (l : Look) (ls : List Look)
      → 0 < l.count
      → nanos deadline < nanos l.now
      → Ended deadline (l ∷ ls) true
  then_ends :
      {ls : List Look} {f : Bool} (l : Look)
      → 0 < l.count
      → nanos l.now ≤ nanos deadline
      → Ended deadline ls f
      → Ended deadline (l ∷ ls) f

is_past-nanos :
    (deadline now : Timespec)
    → IsClock deadline
    → IsClock now
    → is_past deadline now ≡ true
    → nanos deadline < nanos now
is_past-nanos deadline now d n h = ground (arith, h)

is_past-not_nanos :
    (deadline now : Timespec)
    → IsClock deadline
    → IsClock now
    → is_past deadline now ≡ false
    → nanos now ≤ nanos deadline
is_past-not_nanos deadline now d n h = ground (arith, h)

abbrev Ends : Timespec → List Look → Option Bool → Type 0
Ends deadline ls o = (f : Bool) × (o ≡ some f) × Ended deadline ls f

-- The wait for the requests in flight ends, where the clock of its looks advances by 100 milliseconds each time:
-- it takes no more looks than bring that clock past the deadline. It ends at the first look that finds no
-- requests, or the first behind the deadline, with requests, which forces the shutdown.
pub drain_loop-ends :
    (deadline : Timespec) (ls : List Look) (from : ℕ)
    → IsClock deadline
    → Advancing from ls
    → 0 < length ls
    → nanos deadline + 10 ^ 8 < from + length ls * 10 ^ 8
    → (f : Bool) × (drain_loop deadline ls ≡ some f) × Ended deadline ls f
unfolding drain_loop
drain_loop-ends deadline [] from d a one h = absurd (omega (arith, one))
drain_loop-ends deadline (l ∷ ls) from d (one_look _ c later more) one h =
    elim (Bool-cases (l.count == 0)) [
      | inl e ↦ rw e (false, refl, is_empty l ls (ground (arith, e)))
      | inr e ↦ elim (Bool-cases (is_past deadline l.now)) [
        | inl p ↦
            rw (e, p)
              (true, refl, is_overdue l ls (ground (arith, e)) (is_past-nanos deadline l.now d c p))
        | inr p ↦
            (let early = is_past-not_nanos deadline l.now d c p in
              let (f, done, ends) =
                drain_loop-ends deadline ls (nanos l.now + 10 ^ 8) d more
                  (omega (arith, early, later, h)) (omega (arith, later, h)) in
              rw (e, p, done) (f, refl, then_ends l (ground (arith, e)) early ends))
      ]
    ]

-- Signals, one after the other
abbrev pub signals : List (Bool × Timespec) → ShutdownContext → ShutdownContext
signals [] c = c
signals ((interrupted, now) ∷ more) c = signals more (handle_signal interrupted now c)

stopped :
    (more : List (Bool × Timespec)) (c : ShutdownContext)
    → is_running c.state ≡ false
    → signals more c ≡ c
unfolding handle_signal
stopped [] c h = refl
stopped ((interrupted, now) ∷ more) c h = ground (arith, stopped more c h, h)

-- The first signal decides how a running server stops: SIGINT forces it, any other starts to drain it with a
-- deadline `timeout_seconds` away and the requests in flight as the peak; the signals that follow do nothing.
pub signals-first :
    (interrupted : Bool) (now : Timespec) (more : List (Bool × Timespec)) (c : ShutdownContext)
    → is_running c.state ≡ true
    → signals ((interrupted, now) ∷ more) c ≡ (
        if interrupted then record c { state = forced } else record c {
          state = draining;
          deadline = record { tv_sec = now.tv_sec + c.timeout_seconds; tv_nsec = now.tv_nsec };
          peak_in_flight = c.in_flight_requests;
        })
unfolding handle_signal
signals-first true now more c h = ground (arith, stopped more (record c { state = forced }), h)
signals-first false now more c h = ground (arith, stopped more (handle_signal false now c), h)
