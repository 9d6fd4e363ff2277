-- ===== src/IpLimiter/Verdict.antt =====
-- When `ip_limiter_check_and_increment` of src/ip_limiter.c grants a connection, and what it reports.
use emme.Prelude.{
  ℕ, ◌-◌, ◌^◌, ◌<◌, ◌≤◌, ◌≡◌, false, ltb, none, some, get_or, length, arith, ◌⊎◌, inl, inr,
  Bool-cases, Option-cases,
}
use emme.IpLimiter.Entries.{
  Shard, no_entry, scan, revive, admit, place, check_shard, Result, result_ok, rejected,
  max_entries_per_shard,
}
use emme.IpLimiter.Account.{live, holds, stray-set, live-absent}
use emme.IpLimiter.Sound.{IsSound, AllBusy, scan_hit, scan_absent, scan-AllBusy, oldest_of_AllBusy}

-- The shard has no room for a new address: every entry is in use, up to the last.
pub record IsFull (es : Shard) : Type 0 where
  pub busy : AllBusy es
  pub long : max_entries_per_shard ≤ length es

-- A grant is below the limit, and a refusal is at the limit or for want of room.
abbrev pub Verdict : ℕ → ℕ → Shard → Result → Type 0
Verdict limit ip es result_ok = live ip es < limit
Verdict limit ip es rejected = (live ip es ≡ limit) ⊎ ((holds ip es ≡ false) × IsFull es)

admit-Verdict :
    (limit now ip i : ℕ) (es : Shard)
    → IsSound ip limit es
    → (scan ip 0 none es).0 ≡ some i
    → Verdict limit ip es (admit limit now i es).result
unfolding admit
admit-Verdict limit now ip i es s h =
    ground (arith, scan_hit ip i es h, stray-set ip es i (revive (get_or es i no_entry)))

place-Verdict :
    (limit now ip : ℕ) (es : Shard)
    → 0 < limit
    → (scan ip 0 none es).0 ≡ none
    → Verdict limit ip es (place limit now ip (scan ip 0 none es).1 es).result
unfolding place
place-Verdict limit now ip es pos h = elim (Option-cases (scan ip 0 none es).1) [
  | inr (j, q) ↦ rw (q, place) (ground (arith, live-absent ip es, scan_absent ip 0 none es h))
  | inl q ↦
      let busy = scan-AllBusy ip 0 es h q in
      let absent = scan_absent ip 0 none es h in
      rw (q, place)
        (elim (Bool-cases (ltb (length es) max_entries_per_shard)) [
          | inl room ↦ rw (room) (ground (arith, live-absent ip es absent))
          | inr full ↦
              rw (full, oldest_of_AllBusy 0 (2 ^ 64 - 1) none es busy)
                (inr (absent, record { busy = busy; long = ground arith }))
        ])
]

pub check_shard-Verdict :
    (limit now ip : ℕ) (es : Shard)
    → IsSound ip limit es
    → 0 < limit
    → Verdict limit ip es (check_shard limit now ip es).result
unfolding check_shard
check_shard-Verdict limit now ip es s pos = elim (Option-cases (scan ip 0 none es).0) [
  | inl h ↦ rw (h, check_shard) (place-Verdict limit now ip es pos h)
  | inr (i, h) ↦ rw (h, check_shard) (admit-Verdict limit now ip i es s h)
]
