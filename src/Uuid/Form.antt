-- ===== src/Uuid/Form.antt =====
-- The shape of the text that generate_uuid of src/uuid.c writes.
use emme.Prelude.{
  ℕ, zero, suc, ◌+◌, ◌/◌, ◌%◌, ◌≡◌, refl, ◌∙◌, [], ◌∷◌, ◌++◌, Bytes, codes, length, arith,
  length-append, Bool, true, ◌&&◌, ◌||◌, leb, ◌<◌,
}
use emme.Uuid.{RandomState, print_hex, hex_digit, uuid_text, generate_uuid}

-- A digit, or a letter from a to f
abbrev pub is_hex : ℕ → Bool
is_hex c = (leb 48 c && leb c 57) || (leb 97 c && leb c 102)

abbrev pub all_hex : Bytes → Bool
all_hex [] = true
all_hex (c ∷ cs) = is_hex c && all_hex cs

all_hex-append : (cs ds : Bytes) → all_hex cs ≡ true → all_hex ds ≡ true → all_hex (cs ++ ds) ≡ true
all_hex-append [] ds h g = g
all_hex-append (c ∷ cs) ds h g = ground (arith, all_hex-append cs ds)

hex_digit-hex : (d : ℕ) → d < 16 → is_hex (hex_digit d) ≡ true
hex_digit-hex d h = ground arith

-- One of the groups of hexadecimal digits
pub record Digits (n : ℕ) (text : Bytes) : Type 0 where
  pub length_is : length text ≡ n
  pub all_are : all_hex text ≡ true

print_hex-Digits : (digits n : ℕ) → Digits digits (print_hex digits n)
unfolding print_hex
print_hex-Digits zero n = record { length_is = refl; all_are = refl }
print_hex-Digits (suc digits) n =
    let d = print_hex-Digits digits (n / 16) in
    record {
      length_is = length-append (print_hex digits (n / 16)) _ ∙ omega (arith, d.length_is);
      all_are =
          all_hex-append (print_hex digits (n / 16)) _ d.all_are
            (ground (arith, hex_digit-hex (n % 16) (omega arith)));
    }

Digits-append : (m n : ℕ) (cs ds : Bytes) → Digits m cs → Digits n ds → Digits (m + n) (cs ++ ds)
Digits-append m n cs ds a b = record {
  length_is = length-append cs ds ∙ omega (arith, a.length_is, b.length_is);
  all_are = all_hex-append cs ds a.all_are b.all_are;
}

-- Five groups of 8, 4, 4, 4 and 12 digits with dashes between them
pub record UuidForm (text : Bytes) : Type 0 where
  pub low : Bytes
  pub mid : Bytes
  pub high : Bytes
  pub clock : Bytes
  pub node : Bytes
  pub low_is : Digits 8 low
  pub mid_is : Digits 4 mid
  pub high_is : Digits 4 high
  pub clock_is : Digits 4 clock
  pub node_is : Digits 12 node
  pub written :
      text
      ≡ low
        ++ (codes "-"
            ++ (mid ++ (codes "-" ++ (high ++ (codes "-" ++ (clock ++ (codes "-" ++ node)))))))

uuid_text-UuidForm : (r1 r2 r3 r4 : ℕ) → UuidForm (uuid_text r1 r2 r3 r4)
unfolding uuid_text
uuid_text-UuidForm r1 r2 r3 r4 = record {
  low = print_hex 8 _;
  mid = print_hex 4 _;
  high = print_hex 4 _;
  clock = print_hex 4 _;
  node = print_hex 4 _ ++ print_hex 8 _;
  low_is = print_hex-Digits 8 _;
  mid_is = print_hex-Digits 4 _;
  high_is = print_hex-Digits 4 _;
  clock_is = print_hex-Digits 4 _;
  node_is = Digits-append 4 8 _ _ (print_hex-Digits 4 _) (print_hex-Digits 8 _);
  written = refl;
}

UuidForm-length : (text : Bytes) → UuidForm text → length text ≡ 36
UuidForm-length text f = rw f.written (
    simp (length-append) (
      omega (
        arith, f.low_is.length_is, f.mid_is.length_is, f.high_is.length_is, f.clock_is.length_is,
        f.node_is.length_is,
      )))

-- An identifier has the five groups, whatever the generator's state.
generate_uuid-UuidForm : (seed : ℕ) (s : RandomState) → UuidForm ((generate_uuid seed s).0)
unfolding generate_uuid
generate_uuid-UuidForm seed s = uuid_text-UuidForm _ _ _ _

-- The text and its NUL take the 37 bytes of UUID_STRING_LEN.
length-generate_uuid : (seed : ℕ) (s : RandomState) → length ((generate_uuid seed s).0) + 1 ≡ 37
length-generate_uuid seed s =
    omega (arith, UuidForm-length ((generate_uuid seed s).0) (generate_uuid-UuidForm seed s))
