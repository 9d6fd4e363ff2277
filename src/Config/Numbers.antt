-- ===== src/Config/Numbers.antt =====
-- Numbers in text: strtol and strtoull of <stdlib.h> as src/config.c uses them, base 10.
use emme.Prelude.{
  ℕ, ◌+◌, ◌-◌, ◌*◌, ◌%◌, ◌^◌, Bool, true, false, not, if◌then◌else◌, ltb, leb, ◌==◌, ◌&&◌, ◌||◌,
  Option, none, some, ℤ, pos, negsuc, leb_ℤ, [], ◌∷◌, Bytes,
}

-- isspace of the C locale
unfoldable pub is_space : ℕ → Bool
is_space c = c == 32 || (leb 9 c && leb c 13)

unfoldable pub is_digit : ℕ → Bool
is_digit c = leb b'0' c && leb c b'9'

unfoldable pub skip_spaces : Bytes → Bytes
skip_spaces [] = []
skip_spaces (c ∷ s) = if is_space c then skip_spaces s else c ∷ s

-- The digits in front of a text, read on from a value, and what follows them.
unfoldable pub read_digits : ℕ → Bytes → ℕ × Bytes
read_digits value [] = (value, [])
read_digits value (c ∷ s) =
    let rest = read_digits (value * 10 + (c - b'0')) s in
    if is_digit c then rest else (value, c ∷ s)

unfoldable pub starts_with_digit : Bytes → Bool
starts_with_digit [] = false
starts_with_digit (c ∷ s) = is_digit c

-- An optional sign: whether it is a minus, and what follows.
unfoldable pub read_sign : Bytes → Bool × Bytes
read_sign [] = (false, [])
read_sign (c ∷ s) =
    if c == b'-' then (true, s) else if c == b'+' then (false, s) else (false, c ∷ s)

-- What both functions read: whether there is a number (`end != text`), its sign and magnitude, `end`.
pub record Scan : Type 0 where
  pub found : Bool
  pub negative : Bool
  pub magnitude : ℕ
  pub end : Bytes

unfoldable pub scan_number : Bytes → Scan
unfolding read_sign starts_with_digit read_digits skip_spaces is_space is_digit
scan_number text =
    let (negative, digits) = read_sign (skip_spaces text) in
    if starts_with_digit digits
    then record {
      found = true;
      negative = negative;
      magnitude = (read_digits 0 digits).0;
      end = (read_digits 0 digits).1;
    }
    else record { found = false; negative = false; magnitude = 0; end = text }

abbrev pub signed : Bool → ℕ → ℤ
signed false n = pos n
signed true n = if n == 0 then pos 0 else negsuc (n - 1)

-- `errno == ERANGE` and the value of strtol, clamped to a 64-bit long
unfoldable pub long_overflows : Bool → ℕ → Bool
long_overflows false n = leb (2 ^ 63) n
long_overflows true n = ltb (2 ^ 63) n

unfoldable pub long_value : Bool → ℕ → ℤ
unfolding long_overflows
long_value negative n =
    if long_overflows negative n
    then (if negative then negsuc (2 ^ 63 - 1) else pos (2 ^ 63 - 1))
    else signed negative n

-- `*end == '\0'`
abbrev pub is_end : Bytes → Bool
is_end [] = true
is_end (c ∷ s) = false

-- `parse_int_in_range`; `none` is -1.
unfoldable pub parse_int_in_range : Bytes → ℤ → ℤ → Option ℤ
unfolding scan_number long_value
parse_int_in_range text low high =
    let s = scan_number text in
    let value = long_value s.negative s.magnitude in
    if long_overflows s.negative s.magnitude || not s.found || not (is_end s.end)
    then none
    else if not (leb_ℤ low value) || not (leb_ℤ value high)
    then none
    else some value

-- `parse_size_in_range`: strtoull negates a number with a minus modulo 2^64.
unfoldable pub parse_size_in_range : Bytes → ℕ → ℕ → Option ℕ
unfolding scan_number
parse_size_in_range text low high =
    let s = scan_number text in
    let value = if s.negative then (2 ^ 64 - s.magnitude) % 2 ^ 64 else s.magnitude in
    if leb (2 ^ 64) s.magnitude || not s.found || not (is_end s.end)
    then none
    else if ltb value low || ltb high value
    then none
    else some value

-- The conversion of a long to an int: the low 32 bits, signed.
unfoldable pub int_of_bits : ℕ → ℤ
int_of_bits n = if ltb n (2 ^ 31) then pos n else negsuc (2 ^ 32 - 1 - n)

unfoldable pub int_of_long : ℤ → ℤ
unfolding int_of_bits
int_of_long (pos n) = int_of_bits (n % 2 ^ 32)
int_of_long (negsuc n) = int_of_bits (2 ^ 32 - 1 - n % 2 ^ 32)

-- The numeric part of `get_yaml_int`: neither an empty text nor a value out of range is refused.
unfoldable pub parse_int : Bytes → Option ℤ
unfolding scan_number long_value int_of_long
parse_int text =
    let s = scan_number text in
    if is_end s.end then some (int_of_long (long_value s.negative s.magnitude)) else none
