-- ===== src/IpLimiter/Sound.antt =====
-- The loops of src/ip_limiter.c over one shard, and the invariant under which the count of an
-- address is the number of its connections.
use emme.Prelude.{
  ℕ, suc, ◌+◌, ◌<◌, ◌≤◌, ◌≡◌, refl, false, if◌then◌else◌, ◌==◌, ◌&&◌, Option, none, some, [], ◌∷◌,
  ◌++◌, set, get_or, length, arith, is_none, ◌≢◌, ◌⊎◌, inl, inr, Bool-cases,
}
use emme.IpLimiter.Entries.{IpEntry, Shard, no_entry, fresh_entry, scan, oldest_entry}
use emme.IpLimiter.Account.{
  live, stray, first, holds, live-set, stray-set, live-append, stray-append, first-append,
  first-set_unused, first-set_same, live-absent,
}

-- What the first loop found: entry `m` of the rest of the shard, the one that a lookup sees.
abbrev Found : ℕ → ℕ → ℕ → Shard → IpEntry → Type 0
Found ip i j es v =
    (m : ℕ) × (j ≡ i + m)
    × (m < length es)
    × ((get_or es m no_entry).ip ≡ ip)
    × (first ip es ≡ (get_or es m no_entry).count)
    × (first ip (set es m v) ≡ v.count)

scan-Found :
    (ip i : ℕ) (slot : Option ℕ) (es : Shard) (v : IpEntry) (j : ℕ)
    → v.ip ≡ ip
    → (scan ip i slot es).0 ≡ some j
    → Found ip i j es v
unfolding scan
scan-Found ip i slot [] v j q h = cc
scan-Found ip i slot (e ∷ es) v j q h = elim (Bool-cases (e.ip == ip)) [
  | inl hit ↦ (0, ground arith, omega arith, ground arith, ground arith, ground arith)
  | inr miss ↦
      let (m, a, b, c, d, f) =
        scan-Found ip (suc i) (if e.count == 0 && is_none slot then some i else slot) es v j q
          (ground arith) in
      (suc m, omega arith, omega arith, c, ground arith, ground arith)
]

pub scan_absent :
    (ip i : ℕ) (slot : Option ℕ) (es : Shard) → (scan ip i slot es).0 ≡ none → holds ip es ≡ false
unfolding scan
scan_absent ip i slot [] h = refl
scan_absent ip i slot (e ∷ es) h =
    ground
      (arith, scan_absent ip (suc i) (if e.count == 0 && is_none slot then some i else slot) es)

-- The slot that the first loop hands on is the one it was given, or an unused entry.
abbrev Unused : ℕ → ℕ → Shard → Type 0
Unused i j es = (m : ℕ) × (j ≡ i + m) × (m < length es) × ((get_or es m no_entry).count ≡ 0)

scan-Unused :
    (ip i : ℕ) (slot : Option ℕ) (es : Shard) (j : ℕ)
    → (scan ip i slot es).0 ≡ none
    → (scan ip i slot es).1 ≡ some j
    → (slot ≡ some j) ⊎ Unused i j es
unfolding scan
scan-Unused ip i slot [] j n h = inl h
scan-Unused ip i none (e ∷ es) j n h = elim (Bool-cases (e.count == 0)) [
  | inl z ↦ elim (scan-Unused ip (suc i) (some i) es j (ground arith) (ground arith)) [
    | inl q ↦ inr (0, ground arith, omega arith, ground arith)
    | inr (m, a, b, c) ↦ inr (suc m, omega arith, omega arith, c)
  ]
  | inr nz ↦ elim (scan-Unused ip (suc i) none es j (ground arith) (ground arith)) [
    | inl q ↦ inl q
    | inr (m, a, b, c) ↦ inr (suc m, omega arith, omega arith, c)
  ]
]
scan-Unused ip i (some s) (e ∷ es) j n h =
    elim (scan-Unused ip (suc i) (some s) es j (ground arith) (ground arith)) [
      | inl q ↦ inl q
      | inr (m, a, b, c) ↦ inr (suc m, omega arith, omega arith, c)
    ]

-- Every entry of the shard has a connection.
abbrev pub AllBusy : Shard → Type 0
AllBusy [] = Unit {0}
AllBusy (e ∷ es) = (e.count ≢ 0) × AllBusy es

scan_kept : (ip i s : ℕ) (es : Shard) → (scan ip i (some s) es).1 ≢ none
unfolding scan
scan_kept ip i s [] h = cc
scan_kept ip i s (e ∷ es) h = ground (arith, scan_kept ip (suc i) s es)

pub scan-AllBusy :
    (ip i : ℕ) (es : Shard)
    → (scan ip i none es).0 ≡ none
    → (scan ip i none es).1 ≡ none
    → AllBusy es
unfolding scan
scan-AllBusy ip i [] n h = tt
scan-AllBusy ip i (e ∷ es) n h =
    ground (arith, scan-AllBusy ip (suc i) es, scan_kept ip (suc i) i es)

pub oldest_of_AllBusy :
    (i t : ℕ) (o : Option ℕ) (es : Shard) → AllBusy es → oldest_entry i o t es ≡ o
unfolding oldest_entry
oldest_of_AllBusy i t o [] b = refl
oldest_of_AllBusy i t o (e ∷ es) b = ground (arith, oldest_of_AllBusy (suc i) t o es)

-- The shard counts address `k` right: its first entry holds all the connections of `k`, they are
-- within the limit, and no marked entry hides one.
pub record IsSound (k limit : ℕ) (es : Shard) : Type 0 where
  pub agree : first k es ≡ live k es
  pub within : live k es ≤ limit
  pub clean : stray k es ≡ 0

-- The entry of `ip` is written back unmarked, with a count within the limit.
pub found-IsSound :
    (ip limit m : ℕ) (es : Shard) (v : IpEntry)
    → IsSound ip limit es
    → m < length es
    → (get_or es m no_entry).ip ≡ ip
    → first ip es ≡ (get_or es m no_entry).count
    → first ip (set es m v) ≡ v.count
    → v.ip ≡ ip
    → v.marked_for_deletion ≡ false
    → v.count ≤ limit
    → IsSound ip limit (set es m v) × (live ip (set es m v) ≡ v.count)
found-IsSound ip limit m es v s lt p f f' q u w =
    ground (arith, live-set ip es m v, stray-set ip es m v)

-- An entry of another address is rewritten.
pub other-IsSound :
    (k limit m : ℕ) (es : Shard) (v : IpEntry)
    → IsSound k limit es
    → m < length es
    → (get_or es m no_entry).ip ≡ v.ip
    → v.ip ≢ k
    → IsSound k limit (set es m v) × (live k (set es m v) ≡ live k es)
other-IsSound k limit m es v s lt p n =
    ground (arith, live-set k es m v, stray-set k es m v, first-set_same k es m v)

-- An unused entry is given to an address that has none.
pub unused-IsSound :
    (k limit m now ip : ℕ) (es : Shard)
    → IsSound k limit es
    → 0 < limit
    → m < length es
    → (get_or es m no_entry).count ≡ 0
    → holds ip es ≡ false
    → let es' = set es m (fresh_entry now ip) in
      IsSound k limit es' × (live k es' ≡ live k es + (if ip == k then 1 else 0))
unused-IsSound k limit m now ip es s pos lt z absent = elim (Bool-cases (ip == k)) [
  | inl same ↦ ground (
    arith,
    live-set k es m (fresh_entry now ip),
    stray-set k es m (fresh_entry now ip),
    first-set_unused k es m (fresh_entry now ip),
    live-absent k es,
  )
  | inr differs ↦ ground (
    arith,
    live-set k es m (fresh_entry now ip),
    stray-set k es m (fresh_entry now ip),
    first-set_unused k es m (fresh_entry now ip),
  )
]

-- The shard grows by an entry for an address that has none.
pub grown-IsSound :
    (k limit now ip : ℕ) (es : Shard)
    → IsSound k limit es
    → 0 < limit
    → holds ip es ≡ false
    → let es' = es ++ (fresh_entry now ip ∷ []) in
      IsSound k limit es' × (live k es' ≡ live k es + (if ip == k then 1 else 0))
grown-IsSound k limit now ip es s pos absent = ground (
  arith,
  live-append k es (fresh_entry now ip),
  stray-append k es (fresh_entry now ip),
  first-append k es (fresh_entry now ip),
  live-absent k es,
)

-- The two facts about a hit of the first loop, at the index it returns.
pub scan_hit :
    (ip i : ℕ) (es : Shard)
    → (scan ip 0 none es).0 ≡ some i
    → (i < length es)
      × ((get_or es i no_entry).ip ≡ ip)
      × (first ip es ≡ (get_or es i no_entry).count)
scan_hit ip i es h =
    let (m, a, b, c, d, f) = scan-Found ip 0 none es (fresh_entry 0 ip) i refl h in
    let at : i ≡ m = omega arith in rw at (b, c, d)

pub scan_hit_set :
    (ip i : ℕ) (es : Shard) (v : IpEntry)
    → (scan ip 0 none es).0 ≡ some i
    → v.ip ≡ ip
    → first ip (set es i v) ≡ v.count
scan_hit_set ip i es v h q =
    let (m, a, b, c, d, f) = scan-Found ip 0 none es v i q h in
    let at : i ≡ m = omega arith in rw at f

pub scan_miss_slot :
    (ip j : ℕ) (es : Shard)
    → (scan ip 0 none es).0 ≡ none
    → (scan ip 0 none es).1 ≡ some j
    → (j < length es) × ((get_or es j no_entry).count ≡ 0)
scan_miss_slot ip j es h q = elim (scan-Unused ip 0 none es j h q) [
  | inl e ↦ cc
  | inr (m, a, b, c) ↦ let at : j ≡ m = omega arith in rw at (b, c)
]
