-- ===== src/Prelude/Decimal.antt =====
-- `%d` and `%zu` of printf: the decimal digits of a number.
use Prim.Native.Nat.{ℕ, zero, suc, ◌+◌, ◌/◌, ◌%◌}
use mathlib.Core.List.{[], ◌∷◌}
use emme.Prelude.Tests.{ltb, if◌then◌else◌}
use emme.Prelude.Text.{Bytes}

-- Digits in front of a text, with a round of division for each but the first; `fuel` rounds at most.
unfoldable pub digits_before : ℕ → ℕ → Bytes → Bytes
digits_before zero n text = text
digits_before (suc fuel) n text =
    let more = digits_before fuel (n / 10) ((48 + n % 10) ∷ text) in
    if ltb n 10 then (48 + n) ∷ text else more

-- A number below 2^64 has twenty digits at most.
unfoldable pub print_decimal : ℕ → Bytes
print_decimal n = digits_before 20 n []
