-- ===== src/IpLimiter/Checks.antt =====
-- `ip_limiter_check_and_increment` and `ip_limiter_decrement` of src/ip_limiter.c over one shard: what
-- they do to the count of every address.
use emme.Prelude.{
  ℕ, ◌+◌, ◌-◌, ◌%◌, ◌^◌, ◌<◌, ◌≤◌, ◌≡◌, if◌then◌else◌, ◌==◌, none, some, get_or, arith, ◌≢◌, inl,
  inr, Bool-cases, Option-cases,
}
use emme.IpLimiter.Entries.{
  IpEntry, Shard, no_entry, scan, revive, admit, place, check_shard, Check, Result, result_ok,
  rejected, max_connections_per_ip,
}
use emme.IpLimiter.Account.{live, stray-set}
use emme.IpLimiter.Sound.{
  IsSound, scan_hit, scan_hit_set, scan_miss_slot, scan_absent, scan-AllBusy, oldest_of_AllBusy,
  found-IsSound, other-IsSound, unused-IsSound, grown-IsSound,
}

-- What a call for address `ip` adds to the count of address `k`.
abbrev pub gained : ℕ → ℕ → Result → ℕ
gained k ip result_ok = if ip == k then 1 else 0
gained k ip rejected = 0

-- One call on a sound shard: the shard stays sound for `k`, whose count moves by what was granted.
pub record IsCounted (k limit ip : ℕ) (es : Shard) (c : Check) : Type 0 where
  pub sound : IsSound k limit c.entries
  pub moved : live k c.entries ≡ live k es + gained k ip c.result

admit_same :
    (limit now ip i : ℕ) (es : Shard)
    → IsSound ip limit es
    → limit ≤ max_connections_per_ip
    → (scan ip 0 none es).0 ≡ some i
    → IsCounted ip limit ip es (admit limit now i es)
unfolding admit
admit_same limit now ip i es s small h =
    let e = revive (get_or es i no_entry) in
    let v : IpEntry = record e { count = (e.count + 1) % 2 ^ 32; last_seen = now } in
    ground (
      arith,
      scan_hit ip i es h,
      scan_hit_set ip i es e h,
      scan_hit_set ip i es v h,
      stray-set ip es i e,
      found-IsSound ip limit i es e s,
      found-IsSound ip limit i es v s,
    )

admit_other :
    (k limit now ip i : ℕ) (es : Shard)
    → IsSound k limit es
    → ip ≢ k
    → (scan ip 0 none es).0 ≡ some i
    → IsCounted k limit ip es (admit limit now i es)
unfolding admit
admit_other k limit now ip i es s n h =
    let e = revive (get_or es i no_entry) in
    let v : IpEntry = record e { count = (e.count + 1) % 2 ^ 32; last_seen = now } in
    ground
      (arith, scan_hit ip i es h, other-IsSound k limit i es e s, other-IsSound k limit i es v s)

place-IsCounted :
    (k limit now ip : ℕ) (es : Shard)
    → IsSound k limit es
    → 0 < limit
    → (scan ip 0 none es).0 ≡ none
    → IsCounted k limit ip es (place limit now ip (scan ip 0 none es).1 es)
unfolding place
place-IsCounted k limit now ip es s pos h = elim (Option-cases (scan ip 0 none es).1) [
  | inr (j, q) ↦
      rw (q, place)
        (ground (
          arith,
          scan_miss_slot ip j es h q,
          unused-IsSound k limit j now ip es s pos,
          scan_absent ip 0 none es h,
        ))
  | inl q ↦
      rw (q, place)
        (ground (
          arith,
          grown-IsSound k limit now ip es s pos (scan_absent ip 0 none es h),
          oldest_of_AllBusy 0 (2 ^ 64 - 1) none es (scan-AllBusy ip 0 es h q),
        ))
]

-- Whatever address calls, a sound shard stays sound for `k`.
pub check_shard-IsCounted :
    (k limit now ip : ℕ) (es : Shard)
    → IsSound k limit es
    → 0 < limit
    → limit ≤ max_connections_per_ip
    → IsCounted k limit ip es (check_shard limit now ip es)
unfolding check_shard
check_shard-IsCounted k limit now ip es s pos small = elim (Option-cases (scan ip 0 none es).0) [
  | inl h ↦ rw (h, check_shard) (place-IsCounted k limit now ip es s pos h)
  | inr (i, h) ↦ elim (Bool-cases (ip == k)) [
    | inl same ↦
        let e : ip ≡ k = ground arith in
        rw (h, check_shard, e) (admit_same limit now k i es s small (rw e at h))
    | inr differs ↦ rw (h, check_shard) (admit_other k limit now ip i es s (ground arith) h)
  ]
]
