-- ===== src/IpLimiter/History.antt =====
-- Any sequence of calls of src/ip_limiter.c, as src/server.c makes them: a connection is checked in
-- when it is accepted, and an accepted one is checked out once.
use emme.Prelude.{
  ℕ, ◌+◌, ◌-◌, ◌<◌, ◌≤◌, ◌≡◌, refl, if◌then◌else◌, ◌==◌, some, arith, ◌≢◌, inl, inr, Bool-cases,
}
use emme.IpLimiter.Checks.{gained}
use emme.IpLimiter.Verdict.{Verdict, check_shard-Verdict}
use emme.IpLimiter.Limiter.{
  connections, Counts, init-Counts, check-Counts, decrement-Counts, compact-Counts,
}
use emme.IpLimiter.{IpLimiter, shard_of, init, check_and_increment, decrement, compact}

-- The limiter, beside the number of connections that are open for each address.
pub record World : Type 0 where
  pub limiter : IpLimiter
  pub open_from : ℕ → ℕ

abbrev pub accept_world : World → ℕ → ℕ → World
accept_world w ip now =
    let (r, current, l) = check_and_increment w.limiter ip now in
    record { limiter = l; open_from = λ k. w.open_from k + gained k ip r }

abbrev pub close_world : World → ℕ → World
close_world w ip = record {
  limiter = decrement w.limiter ip;
  open_from = λ k. w.open_from k - (if ip == k then 1 else 0);
}

pub data Step : World → World → Type 0 where
  accepted : (w : World) (ip now : ℕ) → Step w (accept_world w ip now)
  closed : (w : World) (ip : ℕ) → ip ≢ 0 → 0 < w.open_from ip → Step w (close_world w ip)
  compacted : (w : World) (now : ℕ) → Step w (record w { limiter = compact w.limiter now })

pub data Reach (v : World) : World → Type 0 where
  here : Reach v v
  next : {u w : World} → Reach v u → Step u w → Reach v w

-- The limiter knows how many connections address `k` has.
record Agrees (k : ℕ) (w : World) : Type 0 where
  counts : Counts k w.limiter
  exact : connections w.limiter k ≡ w.open_from k

Step-Agrees : {u w : World} (k : ℕ) → k ≢ 0 → Step u w → Agrees k u → Agrees k w
Step-Agrees k n (accepted w ip now) a = ground (arith, check-Counts w.limiter ip now k a.counts)
Step-Agrees k n (closed w ip m p) a = elim (Bool-cases (ip == k)) [
  | inl same ↦
      let e : ip ≡ k = ground arith in
      let has : ip ≡ k → 0 < connections w.limiter k = λ q. rw (a.exact, ← e) p in
      ground (arith, decrement-Counts w.limiter ip k a.counts has)
  | inr differs ↦
      let has : ip ≡ k → 0 < connections w.limiter k = λ q. absurd (ground arith) in
      ground (arith, decrement-Counts w.limiter ip k a.counts has)
]
Step-Agrees k n (compacted w now) a = ground (arith, compact-Counts w.limiter now k n a.counts)

Reach-Agrees : {v w : World} (k : ℕ) → k ≢ 0 → Agrees k v → Reach v w → Agrees k w
Reach-Agrees k n a here = a
Reach-Agrees k n a (next r st) = Step-Agrees k n st (Reach-Agrees k n a r)

abbrev pub empty_world : IpLimiter → World
empty_world l = record { limiter = l; open_from = λ k. 0 }

init-Agrees : (limit now k : ℕ) {l : IpLimiter} → init limit now ≡ some l → Agrees k (empty_world l)
init-Agrees limit now k e = ground (arith, init-Counts limit now k e)

limit-Step : {u w : World} → Step u w → w.limiter.default_limit ≡ u.limiter.default_limit
unfolding check_and_increment decrement compact
limit-Step (accepted w ip now) = refl
limit-Step (closed w ip m p) = refl
limit-Step (compacted w now) = ground arith

limit-Reach : {v w : World} → Reach v w → w.limiter.default_limit ≡ v.limiter.default_limit
limit-Reach here = refl
limit-Reach (next r st) = omega (arith, limit-Step st, limit-Reach r)

-- After any sequence of accepts, closes of open connections and compactions, from the limiter that
-- `ip_limiter_init` makes with `limit`, the limiter counts for every address but 0.0.0.0 exactly the
-- connections that are open, and there are at most `limit` of them.
pub Reach-connections :
    (limit now k : ℕ) {l : IpLimiter} {w : World}
    → init limit now ≡ some l
    → Reach (empty_world l) w
    → k ≢ 0
    → (connections w.limiter k ≡ w.open_from k) × (w.open_from k ≤ limit)
Reach-connections limit now k e r n =
    let a = Reach-Agrees k n (init-Agrees limit now k e) r in
    ground (arith, a, limit-Reach r, init-Counts limit now k e)

-- After any sequence of accepts, closes and compactions from `ip_limiter_init` with `limit`, a call grants
-- a connection of an address other than 0.0.0.0 only below the limit, and refuses one
-- only at the limit, or when the address has no entry and all 256 entries of its shard have connections.
pub Reach-Verdict :
    (limit now later ip : ℕ) {l : IpLimiter} {w : World}
    → init limit now ≡ some l
    → Reach (empty_world l) w
    → ip ≢ 0
    → Verdict limit ip (shard_of w.limiter ip) (check_and_increment w.limiter ip later).0
unfolding check_and_increment
Reach-Verdict limit now later ip {l} {w} e r n =
    let a = Reach-Agrees ip n (init-Agrees limit now ip e) r in
    let same : w.limiter.default_limit ≡ limit =
      omega (arith, limit-Reach r, (init-Counts limit now ip e).2) in
    let v =
      check_shard-Verdict w.limiter.default_limit later ip (shard_of w.limiter ip) a.counts.shard
        a.counts.positive in
    rw (← same) v
