-- ===== src/IpLimiter.antt =====
-- include/ip_limiter.h and src/ip_limiter.c: the per-IP connection limiter. An address is looked up in
-- one of 256 shards, and each shard is a short array of entries under a mutex.
pub mod Entries
pub mod Account
pub mod Sound
pub mod Checks
pub mod Release
pub mod Verdict
pub mod Limiter
pub mod History
mod Examples
use emme.Prelude.{
  ℕ, ◌+◌, ◌-◌, ◌*◌, ◌%◌, ◌/◌, ◌^◌, Bool, true, false, if◌then◌else◌, ltb, ◌==◌, ◌||◌, Option, none,
  some, List, [], ◌∷◌, get_or, set, replicate, leb,
}
use Prim.Native.Nat.{bit_xor}
use Entries.{
  Shard, Result, result_ok, rejected, max_connections_per_ip, Check, check_shard, decrement_entries,
  Swept, sweep, keep_swept,
}

-- IP_LIMITER_SHARDS
abbrev pub shards_count : ℕ
shards_count = 256

-- KNUTH_MULTIPLICATIVE_CONSTANT
abbrev knuth_constant : ℕ
knuth_constant = 2654435761

-- `ip *= K` and `ip ^= ip >> 16` on a uint32_t
multiply : ℕ → ℕ
multiply ip = (ip * knuth_constant) % 2 ^ 32

fold_high : ℕ → ℕ
fold_high ip = bit_xor ip (ip / 2 ^ 16)

hash_ip : ℕ → ℕ
unfolding multiply fold_high
hash_ip ip = multiply (fold_high (multiply (fold_high (multiply ip))))

-- `hash & (IP_LIMITER_SHARDS - 1)`, the low eight bits
unfoldable pub get_shard_index : ℕ → ℕ
unfolding hash_ip
get_shard_index ip = hash_ip ip % shards_count

-- `ip_limiter_t`. The mutexes are not state: each operation below runs with its shard locked.
pub record IpLimiter : Type 0 where
  pub shards : List Shard
  pub default_limit : ℕ
  pub total_entries : ℕ
  pub rejections_total : ℕ
  pub last_compaction : ℕ

-- COMPACTION_INTERVAL_NS
abbrev pub compaction_interval : ℕ
compaction_interval = 5000000000

-- `ip_limiter_init`, where every pthread_mutex_init succeeds; `none` is the result -1.
unfoldable pub init : ℕ → ℕ → Option IpLimiter
init limit now =
    if limit == 0 || ltb max_connections_per_ip limit
    then none
    else some (record {
      shards = replicate shards_count [];
      default_limit = limit;
      total_entries = 0;
      rejections_total = 0;
      last_compaction = now;
    })

unfoldable pub shard_of : IpLimiter → ℕ → Shard
shard_of l ip = get_or l.shards (get_shard_index ip) []

-- `ip_limiter_check_and_increment`: the result, what `*current_count` receives, and the limiter after.
unfoldable pub check_and_increment : IpLimiter → ℕ → ℕ → Result × ℕ × IpLimiter
unfolding shard_of
check_and_increment l ip now =
    let c = check_shard l.default_limit now ip (shard_of l ip) in
    (
      c.result,
      c.current_count,
      record l {
        shards = set l.shards (get_shard_index ip) c.entries;
        total_entries = if c.new_entry then (l.total_entries + 1) % 2 ^ 64 else l.total_entries;
        rejections_total = elim c.result [
          | result_ok ↦ l.rejections_total
          | rejected ↦ (l.rejections_total + 1) % 2 ^ 64
        ];
      },
    )

-- `ip_limiter_decrement`
unfoldable pub decrement : IpLimiter → ℕ → IpLimiter
unfolding shard_of
decrement l ip = record l {
  shards = set l.shards (get_shard_index ip) (decrement_entries ip (shard_of l ip));
}

-- The loop of `ip_limiter_compact` over the shards: the shards after it and `total_removed`.
compact_shards : ℕ → List Shard → List Shard × ℕ
compact_shards now [] = ([], 0)
compact_shards now (s ∷ ss) =
    let rest = compact_shards now ss in
    let swept = sweep now s in (keep_swept s swept ∷ rest.0, swept.removed + rest.1)

-- `ip_limiter_compact`
unfoldable pub compact : IpLimiter → ℕ → IpLimiter
unfolding compact_shards
compact l now =
    if ltb ((now + 2 ^ 64 - l.last_compaction) % 2 ^ 64) compaction_interval
    then l
    else let r = compact_shards now l.shards in
      record l {
        shards = r.0;
        last_compaction = now;
        total_entries = (l.total_entries + 2 ^ 64 - r.1) % 2 ^ 64;
      }

unfoldable pub get_total_entries : IpLimiter → ℕ
get_total_entries l = l.total_entries

unfoldable pub get_rejections_total : IpLimiter → ℕ
get_rejections_total l = l.rejections_total
