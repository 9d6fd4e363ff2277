-- ===== src/Uuid.antt =====
-- include/uuid.h and src/uuid.c: the random numbers of a Mersenne Twister and the text of a UUID. The time and
-- the process number that seed it are an argument; an unsigned int has 32 bits.
pub mod Words
pub mod Form
mod Examples
use Prim.Native.Nat.{bit_and, bit_or, bit_xor}
use emme.Prelude.{
  ℕ, zero, suc, ◌+◌, ◌-◌, ◌*◌, ◌/◌, ◌%◌, ◌^◌, Bool, true, false, if◌then◌else◌, leb, ltb, ◌==◌,
  List, [], ◌∷◌, ◌++◌, Bytes, codes, set, get_or, replicate,
}

-- The static variables: `random_bytes_initialized`, `random_state` and `random_index`
pub record RandomState : Type 0 where
  pub initialized : Bool
  pub words : List ℕ
  pub index : ℕ

-- Their values at the start of the program
abbrev pub untouched : RandomState
untouched = record { initialized = false; words = replicate 624 0; index = 625 }

abbrev pub word : ℕ → ℕ
word n = n % 2 ^ 32

-- The loop of `init_random_state` from index `i` on, with `left` rounds to go
unfoldable pub seed_from : ℕ → ℕ → List ℕ → List ℕ
seed_from zero i words = words
seed_from (suc left) i words =
    let before = get_or words (i - 1) 0 in
    seed_from left (i + 1) (set words i (word (1812433253 * bit_xor before (before / 2 ^ 30) + i)))

-- `init_random_state` with the seed, the exclusive or of seconds, microseconds and process
unfoldable pub init_random_state : ℕ → RandomState → RandomState
init_random_state seed s = record {
  initialized = true;
  words = seed_from 623 1 (set s.words 0 (word seed));
  index = 624;
}

-- One step of the twist: the word `i` from itself, the word `next` and the word `far`
unfoldable pub twist_word : List ℕ → ℕ → ℕ → ℕ → List ℕ
twist_word words i next far =
    let y = bit_and (get_or words i 0) 2147483648 + bit_and (get_or words next 0) 2147483647 in
    let mixed = bit_xor (get_or words far 0) (y / 2) in
    set words i (if y % 2 == 1 then bit_xor mixed 2567483615 else mixed)

-- The two loops, `for (i = 0; i < 227; i++)` with the word 397 ahead and `for (i = 227; i < 623; i++)` with the
-- word 227 behind, with `left` rounds to go
unfoldable pub twist_ahead : ℕ → ℕ → List ℕ → List ℕ
twist_ahead zero i words = words
twist_ahead (suc left) i words = twist_ahead left (i + 1) (twist_word words i (i + 1) (i + 397))

unfoldable pub twist_behind : ℕ → ℕ → List ℕ → List ℕ
twist_behind zero i words = words
twist_behind (suc left) i words = twist_behind left (i + 1) (twist_word words i (i + 1) (i - 227))

-- The branch `if (random_index >= 624)`
unfoldable pub twist : List ℕ → List ℕ
twist words = twist_word (twist_behind 396 227 (twist_ahead 227 0 words)) 623 0 396

-- The four lines that temper a word
unfoldable pub temper : ℕ → ℕ
temper y0 =
    let y1 = bit_xor y0 (y0 / 2 ^ 11) in
    let y2 = bit_xor y1 (bit_and (word (y1 * 2 ^ 7)) 2636928640) in
    let y3 = bit_xor y2 (bit_and (word (y2 * 2 ^ 15)) 4022730752) in bit_xor y3 (y3 / 2 ^ 18)

-- `generate_random`
unfoldable pub generate_random : RandomState → ℕ × RandomState
generate_random s =
    let words = if leb 624 s.index then twist s.words else s.words in
    let index = if leb 624 s.index then 0 else s.index in
    (temper (get_or words index 0), record s { words = words; index = index + 1 })

-- `get_random_uint`
unfoldable pub get_random_uint : ℕ → RandomState → ℕ × RandomState
get_random_uint seed s = generate_random (if s.initialized then s else init_random_state seed s)

-- A hexadecimal digit, and `%0<n>x` of a number with at most n digits
abbrev pub hex_digit : ℕ → ℕ
hex_digit d = if ltb d 10 then 48 + d else 87 + d

unfoldable pub print_hex : ℕ → ℕ → Bytes
print_hex zero n = []
print_hex (suc digits) n = print_hex digits (n / 16) ++ (hex_digit (n % 16) ∷ [])

-- The text that `generate_uuid` writes for four numbers
unfoldable pub uuid_text : ℕ → ℕ → ℕ → ℕ → Bytes
uuid_text r1 r2 r3 r4 =
    let versioned = bit_or (bit_and r2 4294905855) 16384 in
    let variant = bit_or (bit_and r3 4095) 32768 in
    print_hex 8 r1
    ++ (codes "-"
        ++ (print_hex 4 (versioned / 2 ^ 16)
            ++ (codes "-"
                ++ (print_hex 4 (bit_and versioned 65535)
                    ++ (codes "-"
                        ++ (print_hex 4 variant
                            ++ (codes "-"
                                ++ (print_hex 4 (r4 / 2 ^ 16)
                                    ++ print_hex 8 (bit_and r4 65535)))))))))

-- `generate_uuid`; the seed is used by the first call of all.
unfoldable pub generate_uuid : ℕ → RandomState → Bytes × RandomState
generate_uuid seed s =
    let (r1, s1) = get_random_uint seed s in
    let (r2, s2) = get_random_uint seed s1 in
    let (r3, s3) = get_random_uint seed s2 in
    let (r4, s4) = get_random_uint seed s3 in (uuid_text r1 r2 r3 r4, s4)
