-- ===== src/IpLimiter/Limiter.antt =====
-- The whole limiter of src/ip_limiter.c: 256 shards, and any sequence of calls against the connections
-- that are open.
use emme.Prelude.{
  ℕ, zero, suc, ◌+◌, ◌<◌, ◌≤◌, ◌≡◌, refl, ap, if◌then◌else◌, ◌==◌, some, List, [], ◌∷◌, set, get_or,
  length, arith, ◌≢◌, length-set, length-replicate, get_or-set_self, get_or-set_ne, replicate,
}
use emme.IpLimiter.Entries.{
  Shard, check_shard, decrement_entries, sweep, keep_swept, max_connections_per_ip,
}
use emme.IpLimiter.Account.{live}
use emme.IpLimiter.Sound.{IsSound}
use emme.IpLimiter.Checks.{gained, check_shard-IsCounted}
use emme.IpLimiter.Release.{decrement-IsSound, sweep-IsSound}
use emme.IpLimiter.{
  IpLimiter, shards_count, get_shard_index, shard_of, init, check_and_increment, decrement,
  compact_shards, compact,
}

-- The connections that the limiter counts for an address.
abbrev pub connections : IpLimiter → ℕ → ℕ
connections l k = live k (shard_of l k)

-- The limiter counts address `k` right.
pub record Counts (k : ℕ) (l : IpLimiter) : Type 0 where
  pub shard : IsSound k l.default_limit (shard_of l k)
  pub sized : length l.shards ≡ shards_count
  pub positive : 0 < l.default_limit
  pub small : l.default_limit ≤ max_connections_per_ip

pub index_in_range : (ip : ℕ) → get_shard_index ip < shards_count
unfolding get_shard_index
index_in_range ip = omega arith

get_or-replicate : (n i : ℕ) → get_or {A = Shard} (replicate n []) i [] ≡ []
get_or-replicate zero i = refl
get_or-replicate (suc n) zero = refl
get_or-replicate (suc n) (suc i) = get_or-replicate n i

-- What `ip_limiter_init` accepts has no connection of any address.
pub init-Counts :
    (limit now k : ℕ) {l : IpLimiter}
    → init limit now ≡ some l
    → Counts k l × (connections l k ≡ 0) × (l.default_limit ≡ limit)
unfolding init shard_of
init-Counts limit now k e = ground (
  arith,
  get_or-replicate shards_count (get_shard_index k),
  length-replicate {A = Shard} shards_count [],
)

-- The shard of `k` after the shard of `ip` was replaced.
shard_of-set :
    (ss : List Shard) (ip k : ℕ) (v : Shard)
    → length ss ≡ shards_count
    → get_or (set ss (get_shard_index ip) v) (get_shard_index k) []
      ≡ (if get_shard_index ip == get_shard_index k then v else get_or ss (get_shard_index k) [])
shard_of-set ss ip k v h = ground (
  arith,
  index_in_range ip,
  get_or-set_self ss (get_shard_index ip) v [],
  get_or-set_ne ss (get_shard_index ip) (get_shard_index k) v [],
)

-- A call of `ip_limiter_check_and_increment` for `ip` moves the count of `k` by what it grants.
pub check-Counts :
    (l : IpLimiter) (ip now k : ℕ)
    → Counts k l
    → let (r, current, l') = check_and_increment l ip now in
      Counts k l' × (connections l' k ≡ connections l k + gained k ip r)
unfolding check_and_increment shard_of
check-Counts l ip now k s =
    let es = get_or l.shards (get_shard_index ip) [] in
    let c = check_shard l.default_limit now ip es in
    ground (
      arith,
      shard_of-set l.shards ip k c.entries s.sized,
      length-set l.shards (get_shard_index ip) c.entries,
      check_shard-IsCounted k l.default_limit now ip es,
    )

pub decrement-Counts :
    (l : IpLimiter) (ip k : ℕ)
    → Counts k l
    → (ip ≡ k → 0 < connections l k)
    → let l' = decrement l ip in
      Counts k l' × (connections l' k + (if ip == k then 1 else 0) ≡ connections l k)
unfolding decrement shard_of
decrement-Counts l ip k s has =
    let es = get_or l.shards (get_shard_index ip) [] in
    ground (
      arith,
      shard_of-set l.shards ip k (decrement_entries ip es) s.sized,
      length-set l.shards (get_shard_index ip) (decrement_entries ip es),
      decrement-IsSound k l.default_limit ip es,
    )

compact_shards-get :
    (now : ℕ) (ss : List Shard) (i : ℕ)
    → get_or (compact_shards now ss).0 i []
      ≡ keep_swept (get_or ss i []) (sweep now (get_or ss i []))
unfolding compact_shards keep_swept sweep
compact_shards-get now [] i = refl
compact_shards-get now (s ∷ ss) zero = refl
compact_shards-get now (s ∷ ss) (suc i) = compact_shards-get now ss i

compact_shards-length : (now : ℕ) (ss : List Shard) → length (compact_shards now ss).0 ≡ length ss
unfolding compact_shards
compact_shards-length now [] = refl
compact_shards-length now (s ∷ ss) = ap suc (compact_shards-length now ss)

pub compact-Counts :
    (l : IpLimiter) (now k : ℕ)
    → k ≢ 0
    → Counts k l
    → Counts k (compact l now) × (connections (compact l now) k ≡ connections l k)
unfolding compact shard_of
compact-Counts l now k n s = ground (
  arith,
  compact_shards-get now l.shards (get_shard_index k),
  compact_shards-length now l.shards,
  sweep-IsSound k l.default_limit now (get_or l.shards (get_shard_index k) []) n s.shard,
)
