-- ===== src/Prelude/Clock.antt =====
-- Points in time as the system's calls give them.
use Prim.Native.Nat.{ℕ}

-- `struct timespec`: seconds and nanoseconds
pub record Timespec : Type 0 where
  pub tv_sec : ℕ
  pub tv_nsec : ℕ
