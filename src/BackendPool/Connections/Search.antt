-- ===== src/BackendPool/Connections/Search.antt =====
-- What the search of `backend_pool_acquire` in src/backend_pool.c does to the connections.
use emme.Prelude.{
  ℕ, zero, suc, ◌+◌, ◌<◌, ◌≤◌, ◌≡◌, refl, Bool, true, false, if◌then◌else◌, Option, none, some,
  List, [], ◌∷◌, set, get_or, length, arith, ◌≢◌,
}
use emme.BackendPool.Connections.{is_unhealthy, Conn, new_conn, offer, acquire_conn}

-- The connections in use.
abbrev pub in_use_count : List Conn → ℕ
in_use_count [] = 0
in_use_count (c ∷ cs) = (if c.in_use then 1 else 0) + in_use_count cs

pub in_use-set :
    (cs : List Conn) (i : ℕ) (c : Conn)
    → i < length cs
    → in_use_count (set cs i c) + (if (get_or cs i (new_conn 0)).in_use then 1 else 0)
      ≡ in_use_count cs + (if c.in_use then 1 else 0)
in_use-set [] i c h = absurd (omega arith)
in_use-set (x ∷ cs) zero c h = omega arith
in_use-set (x ∷ cs) (suc i) c h = omega (arith, in_use-set cs i c (omega arith))

pub in_use-le : (cs : List Conn) → in_use_count cs ≤ length cs
in_use-le [] = omega arith
in_use-le (c ∷ cs) = ground (arith, in_use-le cs)

-- A search from index `i` returns an index of the list, and uses one connection more.
abbrev pub Counted : ℕ → List Conn → Option ℕ → List Conn → Type 0
Counted i cs none cs' = in_use_count cs' ≡ in_use_count cs
Counted i cs (some j) cs' = (i ≤ j) × (j < i + length cs) × (in_use_count cs' ≡ in_use_count cs + 1)

-- The connection at offset `m`: it is as it was unless it is the one returned, which was free and fit.
abbrev pub Kept : Conn → Conn → Type 0
Kept c c' = c'.in_use ≡ c.in_use

abbrev pub Given : Conn → Conn → Type 0
Given c c' = (c.in_use ≡ false) × (is_unhealthy c.health ≡ false) × (c'.in_use ≡ true)

module _ (now timeout : ℕ) (reopened : ℕ → Bool) where
  pub acquire_conn-Counted :
      (i : ℕ) (cs : List Conn)
      → let r = acquire_conn now timeout reopened i cs in
        (length r.1 ≡ length cs) × Counted i cs r.0 r.1
  unfolding acquire_conn offer
  acquire_conn-Counted i [] = (refl, refl)
  acquire_conn-Counted i (c ∷ cs) = ground (arith, acquire_conn-Counted (suc i) cs)

  pub acquire_conn-Given :
      (i m : ℕ) (cs : List Conn)
      → let r = acquire_conn now timeout reopened i cs in
        m < length cs
        → (r.0 ≡ some (i + m) → Given (get_or cs m (new_conn 0)) (get_or r.1 m (new_conn 0)))
          × (r.0 ≢ some (i + m) → Kept (get_or cs m (new_conn 0)) (get_or r.1 m (new_conn 0)))
  unfolding acquire_conn offer
  acquire_conn-Given i m [] h = absurd (omega arith)
  acquire_conn-Given i zero (c ∷ cs) h = ground (arith, acquire_conn-Counted (suc i) cs)
  acquire_conn-Given i (suc m) (c ∷ cs) h =
      ground (arith, acquire_conn-Given (suc i) m cs, acquire_conn-Counted (suc i) cs)
