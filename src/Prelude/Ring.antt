-- ===== src/Prelude/Ring.antt =====
-- Circular arrays: the cells that a front and a count select, and a write behind them.
use Prim.Native.Nat.{ℕ, zero, suc, ◌+◌, ◌-◌, ◌%◌, ◌<◌}
use mathlib.Core.Path.{◌≡◌, refl, sym, ap, ◌∙◌, ap₂}
use mathlib.Core.Logic.{◌≢◌}
use mathlib.Core.List.{List, [], ◌∷◌, ◌++◌}
use mathlib.Core.Option.{Option, none}
use native.Mathlib.Omega.{arith}
use native.Mathlib.Nat.{mod-add-mod, mod-eq_of_lt, mod-eq-sub-mod}
use native.Mathlib.Decide.{dec_lt}
use emme.Prelude.Lists.{set, get_or, length, get_or-set_self, get_or-set_ne}

-- The cells from offset `k` on, `n` of them, of a ring of `size` cells whose front is `h`.
abbrev pub cells_from : {A : Type 0} → List (Option A) → ℕ → ℕ → ℕ → ℕ → List (Option A)
cells_from ts size h k zero = []
cells_from ts size h k (suc n) = get_or ts ((h + k) % size) none ∷ cells_from ts size h (suc k) n

-- Two offsets below the capacity name two cells.
offsets_differ : (size h a b : ℕ) → h < size → a < b → b < size → (h + a) % size ≢ (h + b) % size
offsets_differ size h a b p q r = elim (dec_lt (h + a) size) [
  | yes low ↦ elim (dec_lt (h + b) size) [
    | yes both ↦ omega (arith, mod-eq_of_lt low, mod-eq_of_lt both)
    | no over ↦ omega (
      arith,
      mod-eq_of_lt low,
      mod-eq-sub-mod {n = h + b} {m = size} (omega arith),
      mod-eq_of_lt {n = h + b - size} {m = size} (omega arith),
    )
  ]
  | no high ↦ omega (
    arith,
    mod-eq-sub-mod {n = h + a} {m = size} (omega arith),
    mod-eq_of_lt {n = h + a - size} {m = size} (omega arith),
    mod-eq-sub-mod {n = h + b} {m = size} (omega arith),
    mod-eq_of_lt {n = h + b - size} {m = size} (omega arith),
  )
]

-- A write at the offset just behind them adds one at the end.
pub cells_from-set :
    {A : Type 0} (ts : List (Option A)) (size h k n i : ℕ) (v : Option A)
    → length ts ≡ size
    → h < size
    → k + n < size
    → i ≡ (h + (k + n)) % size
    → cells_from (set ts i v) size h k (suc n) ≡ cells_from ts size h k n ++ (v ∷ [])
cells_from-set ts size h k zero i v s p q at =
    let here' : i ≡ (h + k) % size = at ∙ ap (λ (t : ℕ). (h + t) % size) (omega arith) in
    rw (here', get_or-set_self ts ((h + k) % size) v none (omega arith))
cells_from-set ts size h k (suc n) i v s p q at =
    let ahead : i ≡ (h + (suc k + n)) % size = at ∙ ap (λ (t : ℕ). (h + t) % size) (omega arith) in
    ap₂ ◌∷◌
      (get_or-set_ne ts i ((h + k) % size) v none
        (λ e. offsets_differ size h k (suc k + n) p (omega arith) (omega arith) (sym e ∙ ahead)))
      (cells_from-set ts size h (suc k) n i v s p (omega arith) ahead)

-- One step of the front is one offset.
pub cells_from-front :
    {A : Type 0} (ts : List (Option A)) (size h k n : ℕ)
    → cells_from ts size ((h + 1) % size) k n ≡ cells_from ts size h (suc k) n
cells_from-front ts size h k zero = refl
cells_from-front ts size h k (suc n) =
    let e : ((h + 1) % size + k) % size ≡ (h + suc k) % size =
      rw mod-add-mod (ap (λ (t : ℕ). t % size) (omega arith)) in
    rw (e, cells_from-front ts size h (suc k) n)

pub length-cells_from :
    {A : Type 0} (ts : List (Option A)) (size h k n : ℕ) → length (cells_from ts size h k n) ≡ n
length-cells_from ts size h k zero = refl
length-cells_from ts size h k (suc n) = ap suc (length-cells_from ts size h (suc k) n)
