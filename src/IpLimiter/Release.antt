-- ===== src/IpLimiter/Release.antt =====
-- `ip_limiter_decrement` and the sweep of `ip_limiter_compact` in src/ip_limiter.c, over one shard.
use emme.Prelude.{
  ℕ, ◌+◌, ◌^◌, ◌<◌, ◌≤◌, ◌≡◌, refl, if◌then◌else◌, ◌==◌, [], ◌∷◌, length, arith, ◌≢◌, inl, inr,
  Bool-cases,
}
use emme.IpLimiter.Entries.{Shard, decrement_entries, sweep, keep_swept, is_expired}
use emme.IpLimiter.Account.{live, stray, first, first-le-live}
use emme.IpLimiter.Sound.{IsSound}

-- An address with a connection loses one.
decrement_same :
    (k limit : ℕ) (es : Shard)
    → first k es ≡ live k es
    → stray k es ≡ 0
    → live k es ≤ limit
    → limit < 2 ^ 32
    → 0 < live k es
    → let es' = decrement_entries k es in
      (live k es' + 1 ≡ live k es) × (first k es' ≡ live k es') × (stray k es' ≡ 0)
unfolding decrement_entries
decrement_same k limit [] a c w b p = absurd (omega arith)
decrement_same k limit (e ∷ es) a c w b p =
    ground (arith, decrement_same k limit es, first-le-live k es)

-- No other address loses any, whatever count the entry held.
decrement_other :
    (k ip : ℕ) (es : Shard)
    → ip ≢ k
    → let es' = decrement_entries ip es in
      (live k es' ≡ live k es) × (first k es' ≡ first k es) × (stray k es' ≡ stray k es)
unfolding decrement_entries
decrement_other k ip [] n = (refl, refl, refl)
decrement_other k ip (e ∷ es) n = ground (arith, decrement_other k ip es)

pub decrement-IsSound :
    (k limit ip : ℕ) (es : Shard)
    → IsSound k limit es
    → limit < 2 ^ 32
    → (ip ≡ k → 0 < live k es)
    → let es' = decrement_entries ip es in
      IsSound k limit es' × (live k es' + (if ip == k then 1 else 0) ≡ live k es)
decrement-IsSound k limit ip es s small open' = elim (Bool-cases (ip == k)) [
  | inl same ↦
      let e : ip ≡ k = ground arith in
      let d = decrement_same k limit es s.agree s.clean s.within small (open' e) in
      rw e (ground (arith, d))
  | inr differs ↦ ground (arith, decrement_other k ip es (ground arith))
]

-- The sweep gives entries the address 0 and touches no count.
sweep-live :
    (k now : ℕ) (es : Shard)
    → k ≢ 0
    → let es' = (sweep now es).entries in
      (live k es' ≡ live k es)
      × (first k es ≡ live k es → first k es' ≡ live k es')
      × (stray k es ≡ 0 → stray k es' ≡ 0)
unfolding sweep is_expired
sweep-live k now [] n = (refl, (λ h. h), (λ h. h))
sweep-live k now (e ∷ es) n = ground (arith, sweep-live k now es, first-le-live k es)

sweep_all :
    (k now : ℕ) (es : Shard)
    → ((sweep now es).removed ≤ length es) × ((sweep now es).removed ≡ length es → live k es ≡ 0)
unfolding sweep is_expired
sweep_all k now [] = (omega arith, λ h. refl)
sweep_all k now (e ∷ es) = ground (arith, sweep_all k now es)

pub sweep-IsSound :
    (k limit now : ℕ) (es : Shard)
    → k ≢ 0
    → IsSound k limit es
    → let es' = keep_swept es (sweep now es) in IsSound k limit es' × (live k es' ≡ live k es)
unfolding keep_swept
sweep-IsSound k limit now es n s = ground (arith, sweep-live k now es n, sweep_all k now es)
