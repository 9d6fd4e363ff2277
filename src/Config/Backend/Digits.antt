-- ===== src/Config/Backend/Digits.antt =====
-- The rounds of `print_decimal`.
use emme.Prelude.{
  ℕ, zero, suc, ◌+◌, ◌-◌, ◌*◌, ◌/◌, ◌%◌, ◌^◌, ◌<◌, ◌≡◌, ap, Bool-cases, inl, inr, ltb, Bytes, [],
  ◌∷◌, digits_before, print_decimal, arith,
}
use emme.Config.Backend.Form.{decimal}

rounded : (n : ℕ) → n / 10 * 10 + ((48 + n % 10) - 48) ≡ n
rounded n = omega arith

below : (fuel n : ℕ) → n < 10 ^ suc fuel → n / 10 < 10 ^ fuel
below fuel n h = omega (arith, pow_suc fuel)
  where
    pow_suc : (k : ℕ) → 10 ^ suc k ≡ 10 ^ k * 10
    pow_suc k = grind arith

digits_before-decimal :
    (fuel n : ℕ) (text : Bytes)
    → n < 10 ^ fuel
    → decimal 0 (digits_before fuel n text) ≡ decimal n text
unfolding digits_before
digits_before-decimal zero n text h = ground arith
digits_before-decimal (suc fuel) n text h = elim (Bool-cases (ltb n 10)) [
  | inl small ↦ ground (arith, small)
  | inr large ↦ ground (
    arith,
    large,
    ap (λ v. decimal v text) (rounded n),
    digits_before-decimal fuel (n / 10) ((48 + n % 10) ∷ text) (below fuel n h),
  )
]

-- Twenty rounds are enough for a number of twenty digits: what is printed reads as the number.
pub print_decimal-decimal : (n : ℕ) → n < 10 ^ 20 → decimal 0 (print_decimal n) ≡ n
unfolding print_decimal
print_decimal-decimal n h = digits_before-decimal 20 n [] h
