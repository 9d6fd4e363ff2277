-- ===== src/Config/Backend/Form.antt =====
-- Which addresses `parse_backend_url` of src/config.c accepts, and what it makes of them.
use emme.Prelude.{
  ℕ, zero, suc, ◌+◌, ◌-◌, ◌*◌, ◌≤◌, ◌≡◌, refl, ◌≢◌, true, false, ℤ, pos, leb_ℤ, some, [], ◌∷◌, ◌++◌,
  Bytes, take, length, length-take, arith, Option-cases, inl, inr,
}
use emme.Config.Numbers.{
  scan_number, read_digits, is_digit, long_value, long_overflows, int_of_long, int_of_bits,
}
use emme.Config.Backend.{
  scan_host, scan_port, scan_backend, after_colon, in_port_range, parse_backend_url,
}

-- The value of decimal digits, read on from a value.
abbrev pub decimal : ℕ → Bytes → ℕ
decimal value [] = value
decimal value (d ∷ ds) = decimal (value * 10 + (d - b'0')) ds

abbrev pub AllDigits : Bytes → Type 0
AllDigits [] = Unit {0}
AllDigits (d ∷ ds) = (b'0' ≤ d) × (d ≤ b'9') × AllDigits ds

abbrev pub NoColon : Bytes → Type 0
NoColon [] = Unit {0}
NoColon (c ∷ s) = (c ≢ b':') × NoColon s

scan_host-append :
    (room : ℕ) (host rest : Bytes)
    → NoColon host
    → length host ≤ room
    → scan_host room (host ++ (b':' ∷ rest)) ≡ (host, b':' ∷ rest)
unfolding scan_host
scan_host-append zero [] rest n h = refl
scan_host-append zero (c ∷ host) rest n h = absurd (omega arith)
scan_host-append (suc room) [] rest n h = refl
scan_host-append (suc room) (c ∷ host) rest n h = ground (arith, scan_host-append room host rest)

read_digits-decimal :
    (value : ℕ) (ds : Bytes) → AllDigits ds → read_digits value ds ≡ (decimal value ds, [])
unfolding read_digits is_digit
read_digits-decimal value [] a = refl
read_digits-decimal value (d ∷ ds) a =
    ground (arith, read_digits-decimal (value * 10 + (d - b'0')) ds)

pub scan_number-decimal :
    (d : ℕ) (ds : Bytes)
    → AllDigits (d ∷ ds)
    → scan_number (d ∷ ds)
      ≡ record { found = true; negative = false; magnitude = decimal 0 (d ∷ ds); end = [] }
unfolding scan_number
scan_number-decimal d ds a = ground (arith, read_digits-decimal 0 (d ∷ ds) a)

-- The port of a text of decimal digits in range
scan_port-decimal :
    (d : ℕ) (ds : Bytes)
    → AllDigits (d ∷ ds)
    → decimal 0 (d ∷ ds) ≤ 65535
    → scan_port (d ∷ ds) ≡ some (pos (decimal 0 (d ∷ ds)))
unfolding scan_port long_value long_overflows int_of_long int_of_bits
scan_port-decimal d ds a h = ground (arith, scan_number-decimal d ds a)

-- A host of 1 to 255 bytes without a colon, a colon, and decimal digits whose value is a port from 1 to
-- 65535 are accepted; the port is that value and the host is cut to the buffer.
pub parse_backend_url-form :
    (host_size h d : ℕ) (host ds : Bytes)
    → NoColon (h ∷ host)
    → length (h ∷ host) ≤ 255
    → AllDigits (d ∷ ds)
    → 1 ≤ decimal 0 (d ∷ ds)
    → decimal 0 (d ∷ ds) ≤ 65535
    → parse_backend_url ((h ∷ host) ++ (b':' ∷ d ∷ ds)) host_size
      ≡ some (take (host_size - 1) (h ∷ host), pos (decimal 0 (d ∷ ds)))
unfolding parse_backend_url scan_backend after_colon in_port_range
parse_backend_url-form host_size h d host ds nc short a low high =
    ground (arith, scan_host-append 255 (h ∷ host) (d ∷ ds) nc short, scan_port-decimal d ds a high)

-- What is accepted: a port in range and a host that is cut to its buffer.
abbrev pub Address : ℕ → Bytes × ℤ → Type 0
Address host_size (host, port) =
    (leb_ℤ (pos 1) port ≡ true) × (leb_ℤ port (pos 65535) ≡ true) × (length host ≤ host_size - 1)

in_port_range_sound :
    (host_size : ℕ) (found : Bytes × ℤ) (a : Bytes × ℤ)
    → in_port_range host_size found ≡ some a
    → Address host_size a
unfolding in_port_range
in_port_range_sound host_size (host, port) a h = ground (arith, length-take (host_size - 1) host)

-- Whatever text is accepted, the port that comes out is from 1 to 65535 and the host fits into its
-- buffer with the final NUL.
pub parse_backend_url_sound :
    (backend : Bytes) (host_size : ℕ) (a : Bytes × ℤ)
    → parse_backend_url backend host_size ≡ some a
    → Address host_size a
unfolding parse_backend_url
parse_backend_url_sound backend host_size a h = elim (Option-cases (scan_backend backend)) [
  | inl n ↦ ground (arith, n)
  | inr (found, s) ↦ in_port_range_sound host_size found a (ground (arith, s))
]
