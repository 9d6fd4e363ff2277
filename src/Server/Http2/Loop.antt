-- ===== src/Server/Http2/Loop.antt =====
-- When the loop of an HTTP/2 connection of src/server.c ends.
use emme.Prelude.{
  ℕ, ◌≡◌, refl, true, false, none, some, List, [], ◌∷◌, ◌++◌, arith, inl, inr, Bool-cases,
  Option-cases,
}
use emme.Config.Types.{Http2Config}
use emme.Server.Http2.{
  H2Io, H2Round, Ending, finished, idle, exceeds, send_part, transfer_part, h2_round, h2_loop,
}

-- Poll has nothing to say.
pub data AllQuiet : List H2Round → Type 0 where
  none_left : AllQuiet []
  one_quiet :
      {rs : List H2Round} (r : H2Round)
      → r.polled ≡ some (false, false, false)
      → AllQuiet rs
      → AllQuiet (r ∷ rs)

quiet_round :
    (c : Http2Config) (r : H2Round) (io : H2Io) (last : ℕ)
    → r.polled ≡ some (false, false, false)
    → (h2_round c r (io, last)).0 ≡ (io, last)
unfolding h2_round transfer_part send_part
quiet_round c r io last q = ground (arith, q)

late_round :
    (c : Http2Config) (r : H2Round) (io : H2Io) (last : ℕ)
    → exceeds r.now last c.keepalive_timeout ≡ true
    → (e : Ending) × ((h2_round c r (io, last)).1 ≡ some e)
unfolding h2_round
late_round c r io last late = elim (Bool-cases r.session_wants) [
  | inl w ↦ rw (w, late) (idle, refl)
  | inr w ↦ rw w (finished, refl)
]

ends_here :
    (c : Http2Config) (r : H2Round) (rs : List H2Round) (io : H2Io) (last : ℕ) (e : Ending)
    → (h2_round c r (io, last)).1 ≡ some e
    → h2_loop c (r ∷ rs) (io, last) ≡ ((h2_round c r (io, last)).0.0, some e)
unfolding h2_loop
ends_here c r rs io last e h = ground (arith, h)

goes_on :
    (c : Http2Config) (r : H2Round) (rs : List H2Round) (io : H2Io) (last : ℕ)
    → (h2_round c r (io, last)).1 ≡ none
    → h2_loop c (r ∷ rs) (io, last) ≡ h2_loop c rs (h2_round c r (io, last)).0
unfolding h2_loop
goes_on c r rs io last h = ground (arith, h)

-- A connection on which nothing comes and nothing goes ends with the first round that starts later than the idle
-- time after the last activity, if it has not ended before, and what it has counted stays as it was.
pub h2_loop-idle :
    (c : Http2Config) (rs : List H2Round) (r : H2Round) (io : H2Io) (last : ℕ)
    → AllQuiet (rs ++ (r ∷ []))
    → exceeds r.now last c.keepalive_timeout ≡ true
    → (e : Ending) × (h2_loop c (rs ++ (r ∷ [])) (io, last) ≡ (io, some e))
h2_loop-idle c [] r io last (one_quiet _ q more) late =
    let (e, h) = late_round c r io last late in
    rw (ends_here c r [] io last e h, quiet_round c r io last q) (e, refl)
h2_loop-idle c (x ∷ rs) r io last (one_quiet _ q more) late =
    let rest = h2_loop-idle c rs r io last more late in
    let same = quiet_round c x io last q in
    elim (Option-cases (h2_round c x (io, last)).1) [
      | inl n ↦ rw (goes_on c x (rs ++ (r ∷ [])) io last n, same) rest
      | inr (e, h) ↦ rw (ends_here c x (rs ++ (r ∷ [])) io last e h, same) (e, refl)
    ]
