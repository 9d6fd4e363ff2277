-- ===== src/Config/Backend.antt =====
-- `parse_backend_url` of src/config.c: the address of a backend, host:port.
pub mod Form
pub mod Digits
use emme.Prelude.{
  ℕ, zero, suc, ◌-◌, Bool, true, false, not, if◌then◌else◌, ◌==◌, ◌&&◌, ◌||◌, ℤ, pos, leb_ℤ, Option,
  none, some, ◌>>=◌, List, [], ◌∷◌, Bytes, take,
}
use emme.Config.Numbers.{Scan, scan_number, long_value, int_of_long, is_end}

-- `%255[^:]`: the bytes before the first colon, `room` at most, and the rest.
unfoldable pub scan_host : ℕ → Bytes → Bytes × Bytes
scan_host zero s = ([], s)
scan_host (suc room) [] = ([], [])
scan_host (suc room) (c ∷ s) =
    let rest = scan_host room s in if c == b':' then ([], c ∷ s) else (c ∷ rest.0, rest.1)

-- `%d%c` at the end of the format: an int with nothing behind it. The C library reads it as strtol does
-- and keeps the low 32 bits.
unfoldable pub scan_port : Bytes → Option ℤ
unfolding scan_number
scan_port text =
    let s = scan_number text in
    if s.found && is_end s.end then some (int_of_long (long_value s.negative s.magnitude)) else none

-- The colon between them
unfoldable pub after_colon : Bytes → Option Bytes
after_colon [] = none
after_colon (c ∷ s) = if c == b':' then some s else none

-- `sscanf(backend, "%255[^:]:%d%c", …) == 2`, with a host of one byte at least
unfoldable pub scan_backend : Bytes → Option (Bytes × ℤ)
unfolding after_colon
scan_backend backend =
    let (host, rest) = scan_host 255 backend in
    if is_end host
    then none
    else (do text ← after_colon rest; port ← scan_port text; some (host, port))

unfoldable pub in_port_range : ℕ → Bytes × ℤ → Option (Bytes × ℤ)
in_port_range host_size (host, port) =
    if not (leb_ℤ (pos 1) port) || not (leb_ℤ port (pos 65535))
    then none
    else some (take (host_size - 1) host, port)

-- `parse_backend_url` into a host buffer of `host_size` bytes; `none` is -1.
unfoldable pub parse_backend_url : Bytes → ℕ → Option (Bytes × ℤ)
unfolding in_port_range
parse_backend_url backend host_size = do found ← scan_backend backend; in_port_range host_size found
