-- ===== src/IpLimiter/Entries.antt =====
-- src/ip_limiter.c: what the limiter does to the entries of one shard while it holds the lock. The
-- list is `entries[0 .. count)`; a cell past it is written whole before it is read, so it is no state.
use emme.Prelude.{
  ℕ, suc, ◌+◌, ◌-◌, ◌%◌, ◌^◌, Bool, true, false, if◌then◌else◌, ltb, leb, ◌==◌, ◌&&◌, Option, none,
  some, List, [], ◌∷◌, ◌++◌, set, get_or, length, is_none,
}

-- IP_LIMITER_MAX_ENTRIES_PER_SHARD
abbrev pub max_entries_per_shard : ℕ
max_entries_per_shard = 256

-- IP_LIMITER_MAX_CONNECTIONS_PER_IP
abbrev pub max_connections_per_ip : ℕ
max_connections_per_ip = 10000

-- ENTRY_EXPIRY_NS
abbrev pub entry_expiry : ℕ
entry_expiry = 60000000000

-- `ip_entry_t`
pub record IpEntry : Type 0 where
  pub ip : ℕ
  pub count : ℕ
  pub last_seen : ℕ
  pub marked_for_deletion : Bool

abbrev pub Shard : Type 0
Shard = List IpEntry

-- `ip_limiter_result_t`; IP_LIMITER_ERROR answers a null pointer, which the model has none of.
pub data Result : Type 0 where
  result_ok rejected : Result

-- What one call leaves behind: `new_entry` says that it raised `total_entries`.
pub record Check : Type 0 where
  pub result : Result
  pub current_count : ℕ
  pub entries : Shard
  pub new_entry : Bool

-- The first loop: the index of the entry of `ip`, and of the first unused entry before it.
unfoldable pub scan : ℕ → ℕ → Option ℕ → Shard → Option ℕ × Option ℕ
scan ip i slot [] = (none, slot)
scan ip i slot (e ∷ es) =
    let slot' = if e.count == 0 && is_none slot then some i else slot in
    let rest = scan ip (suc i) slot' es in if e.ip == ip then (some i, slot) else rest

-- The second loop: the unused entry that was seen longest ago.
unfoldable pub oldest_entry : ℕ → Option ℕ → ℕ → Shard → Option ℕ
oldest_entry i oldest oldest_time [] = oldest
oldest_entry i oldest oldest_time (e ∷ es) =
    let older = e.count == 0 && ltb e.last_seen oldest_time in
    oldest_entry (suc i) (if older then some i else oldest)
      (if older then e.last_seen else oldest_time) es

abbrev pub no_entry : IpEntry
no_entry = record { ip = 0; count = 0; last_seen = 0; marked_for_deletion = false }

abbrev pub fresh_entry : ℕ → ℕ → IpEntry
fresh_entry now ip = record { ip = ip; count = 1; last_seen = now; marked_for_deletion = false }

-- A marked entry is revived with no connections.
abbrev pub revive : IpEntry → IpEntry
revive e = if e.marked_for_deletion then record e { marked_for_deletion = false; count = 0 } else e

-- The branch `if (found_entry)`.
unfoldable pub admit : ℕ → ℕ → ℕ → Shard → Check
admit limit now i es =
    let e = revive (get_or es i no_entry) in
    if leb limit e.count
    then record {
      result = rejected;
      current_count = e.count;
      entries = set es i e;
      new_entry = false;
    }
    else record {
      result = result_ok;
      current_count = e.count + 1;
      entries = set es i (record e { count = (e.count + 1) % 2 ^ 32; last_seen = now });
      new_entry = false;
    }

-- The branches for an address with no entry: an unused entry, a new cell, the oldest entry, refusal.
unfoldable pub place : ℕ → ℕ → ℕ → Option ℕ → Shard → Check
place limit now ip (some j) es = record {
  result = result_ok;
  current_count = 1;
  entries = set es j (fresh_entry now ip);
  new_entry = true;
}
place limit now ip none es =
    if ltb (length es) max_entries_per_shard
    then record {
      result = result_ok;
      current_count = 1;
      entries = es ++ (fresh_entry now ip ∷ []);
      new_entry = true;
    }
    else elim (oldest_entry 0 none (2 ^ 64 - 1) es) [
      | some j ↦ record {
        result = result_ok;
        current_count = 1;
        entries = set es j (fresh_entry now ip);
        new_entry = false;
      }
      | none ↦ record { result = rejected; current_count = limit; entries = es; new_entry = false }
    ]

-- The body of `ip_limiter_check_and_increment` between lock and unlock.
unfoldable pub check_shard : ℕ → ℕ → ℕ → Shard → Check
check_shard limit now ip es = elim (scan ip 0 none es).0 [
  | some i ↦ admit limit now i es
  | none ↦ place limit now ip (scan ip 0 none es).1 es
]

-- The loop of `ip_limiter_decrement`; atomic_fetch_sub wraps at zero.
unfoldable pub decrement_entries : ℕ → Shard → Shard
decrement_entries ip [] = []
decrement_entries ip (e ∷ es) =
    if e.ip == ip
    then record e {
      count = (e.count + 2 ^ 32 - 1) % 2 ^ 32;
      marked_for_deletion = if leb e.count 1 then true else e.marked_for_deletion;
    }
      ∷ es
    else e ∷ decrement_entries ip es

pub record Swept : Type 0 where
  pub entries : Shard
  pub removed : ℕ

-- The test of `ip_limiter_compact` on one entry.
unfoldable pub is_expired : ℕ → IpEntry → Bool
is_expired now e =
    e.marked_for_deletion
    && e.count == 0
    && ltb entry_expiry ((now + 2 ^ 64 - e.last_seen) % 2 ^ 64)

-- Its inner loop.
unfoldable pub sweep : ℕ → Shard → Swept
unfolding is_expired
sweep now [] = record { entries = []; removed = 0 }
sweep now (e ∷ es) =
    let rest = sweep now es in
    if is_expired now e
    then record {
      entries = record e { ip = 0; last_seen = 0; marked_for_deletion = false } ∷ rest.entries;
      removed = suc rest.removed;
    }
    else record { entries = e ∷ rest.entries; removed = rest.removed }

-- `if (removed > 0 && removed == shard->count) shard->count = 0;`
unfoldable pub keep_swept : Shard → Swept → Shard
keep_swept es s = if ltb 0 s.removed && s.removed == length es then [] else s.entries
