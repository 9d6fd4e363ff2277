-- ===== src/IpLimiter/Account.antt =====
-- The connections that a shard of src/ip_limiter.c counts for one address, and how a write of one
-- entry moves that count.
use emme.Prelude.{
  ℕ, zero, suc, ◌+◌, ◌<◌, ◌≤◌, ◌≡◌, refl, Bool, false, if◌then◌else◌, ◌==◌, ◌&&◌, ◌||◌, [], ◌∷◌,
  ◌++◌, set, get_or, length, arith, ◌≢◌, ◌⊎◌,
}
use emme.IpLimiter.Entries.{IpEntry, Shard, no_entry}

module _ (k : ℕ) where
  -- What one entry counts for address `k`, and what it would lose if it were revived.
  abbrev pub share : IpEntry → ℕ
  share e = if e.ip == k then e.count else 0

  abbrev pub marked_share : IpEntry → ℕ
  marked_share e = if e.ip == k && e.marked_for_deletion then e.count else 0

  -- The connections counted for `k` over the whole shard, and over its marked entries.
  abbrev pub live : Shard → ℕ
  live [] = 0
  live (e ∷ es) = share e + live es

  abbrev pub stray : Shard → ℕ
  stray [] = 0
  stray (e ∷ es) = marked_share e + stray es

  -- The count of the entry that a lookup of `k` finds.
  abbrev pub first : Shard → ℕ
  first [] = 0
  first (e ∷ es) = if e.ip == k then e.count else first es

  -- Whether a lookup of `k` finds an entry.
  abbrev pub holds : Shard → Bool
  holds [] = false
  holds (e ∷ es) = e.ip == k || holds es

  pub live-absent : (es : Shard) → holds es ≡ false → live es ≡ 0
  live-absent [] h = refl
  live-absent (e ∷ es) h = ground (arith, live-absent es)

  pub first-le-live : (es : Shard) → first es ≤ live es
  first-le-live [] = omega arith
  first-le-live (e ∷ es) = ground (arith, first-le-live es)

  -- A write of entry `i` moves the sums by the difference of the shares.
  pub live-set :
      (es : Shard) (i : ℕ) (v : IpEntry)
      → i < length es
      → live (set es i v) + share (get_or es i no_entry) ≡ live es + share v
  live-set [] i v h = absurd (omega arith)
  live-set (e ∷ es) zero v h = omega arith
  live-set (e ∷ es) (suc i) v h = omega (arith, live-set es i v (omega arith))

  pub stray-set :
      (es : Shard) (i : ℕ) (v : IpEntry)
      → i < length es
      → stray (set es i v) + marked_share (get_or es i no_entry) ≡ stray es + marked_share v
  stray-set [] i v h = absurd (omega arith)
  stray-set (e ∷ es) zero v h = omega arith
  stray-set (e ∷ es) (suc i) v h = omega (arith, stray-set es i v (omega arith))

  pub live-append : (es : Shard) (v : IpEntry) → live (es ++ (v ∷ [])) ≡ live es + share v
  live-append [] v = omega arith
  live-append (e ∷ es) v = omega (arith, live-append es v)

  pub stray-append : (es : Shard) (v : IpEntry) → stray (es ++ (v ∷ [])) ≡ stray es + marked_share v
  stray-append [] v = omega arith
  stray-append (e ∷ es) v = omega (arith, stray-append es v)

  -- A new entry at the end is not seen where the address is counted already.
  pub first-append :
      (es : Shard) (v : IpEntry)
      → first es ≡ live es
      → (holds es ≡ false) ⊎ (v.ip ≢ k)
      → first (es ++ (v ∷ [])) ≡ live (es ++ (v ∷ []))
  first-append [] v h q = ground arith
  first-append (e ∷ es) v h q = ground (arith, first-append es v, live-append es v, live-absent es)

  -- Overwriting an unused entry with one of another address, or one of the same address.
  pub first-set_unused :
      (es : Shard) (i : ℕ) (v : IpEntry)
      → i < length es
      → first es ≡ live es
      → (get_or es i no_entry).count ≡ 0
      → (holds es ≡ false) ⊎ (v.ip ≢ k)
      → first (set es i v) ≡ live (set es i v)
  first-set_unused [] i v l h z q = absurd (omega arith)
  first-set_unused (e ∷ es) zero v l h z q = ground (arith, first-le-live es, live-absent es)
  first-set_unused (e ∷ es) (suc i) v l h z q =
      ground (arith, first-set_unused es i v, live-set es i v, first-le-live es, live-absent es)

  -- Overwriting an entry of an address by another entry of that address.
  pub first-set_same :
      (es : Shard) (i : ℕ) (v : IpEntry)
      → (get_or es i no_entry).ip ≡ v.ip
      → (v.ip ≢ k)
      → first (set es i v) ≡ first es
  first-set_same [] i v h n = refl
  first-set_same (e ∷ es) zero v h n = ground arith
  first-set_same (e ∷ es) (suc i) v h n = ground (arith, first-set_same es i v)
