-- ===== src/Prelude/Slots.antt =====
-- Lists of indices that are handed out and given back.
use Prim.Native.Nat.{ℕ, ◌+◌, ◌<◌}
use mathlib.Core.Path.{◌≡◌}
use mathlib.Core.List.{List, [], ◌∷◌}
use native.Mathlib.Omega.{arith}
use emme.Prelude.Tests.{◌==◌, if◌then◌else◌}
use emme.Prelude.Lists.{length}

-- How often a number stands in a list, and the list less one of them.
abbrev pub occurs : ℕ → List ℕ → ℕ
occurs i [] = 0
occurs i (j ∷ js) = (if i == j then 1 else 0) + occurs i js

abbrev pub remove : ℕ → List ℕ → List ℕ
remove i [] = []
remove i (j ∷ js) = if i == j then js else j ∷ remove i js

pub occurs-remove :
    (i j : ℕ) (js : List ℕ)
    → 0 < occurs j js
    → occurs i (remove j js) + (if i == j then 1 else 0) ≡ occurs i js
occurs-remove i j [] h = absurd (omega arith)
occurs-remove i j (x ∷ js) h = ground (arith, occurs-remove i j js)

pub length-remove : (j : ℕ) (js : List ℕ) → 0 < occurs j js → length (remove j js) + 1 ≡ length js
length-remove j [] h = absurd (omega arith)
length-remove j (x ∷ js) h = ground (arith, length-remove j js)
