-- ===== src/Config/Load/Environment.antt =====
-- What `apply_env_overrides` of src/config.c does to a configuration that has been loaded.
use emme.Prelude.{
  ℕ, ◌*◌, ◌^◌, ◌≤◌, ◌<◌, ◌≡◌, Bool, false, if◌then◌else◌, leb, ◌&&◌, ℤ, pos, negsuc, leb_ℤ, Option,
  none, some, [], ◌∷◌, Bytes, codes, Bool-cases, leb→le, inl, inr, arith,
}
use emme.Config.Numbers.{scan_number, long_value, long_overflows, int_of_long, int_of_bits, is_end}
use emme.Config.Backend.Form.{decimal, AllDigits, scan_number-decimal}
use emme.Config.Types.{ServerConfig}
use emme.Config.Load.{
  apply_int_env_override, override_int, times, apply_string_env_override, apply_env_overrides,
  validate_config,
}
use emme.Config.Load.Ranges.{Between, InRanges}

times_mono : (a b c : ℕ) → a ≤ b → a * c ≤ b * c
times_mono a b c h = grind arith

-- A value in a range of positive ints is kept by the conversions.
int_of_long-Between :
    (low high scale : ℕ) (v : ℤ)
    → Between low high v
    → (1 ≤ low) × (high * scale < 2 ^ 31) × (1 ≤ scale)
    → Between (low * scale) (high * scale) (int_of_long (times v scale))
unfolding int_of_long int_of_bits times
int_of_long-Between low high scale (pos n) b s =
    ground (arith, times_mono low n scale (ground arith), times_mono n high scale (ground arith))
int_of_long-Between low high scale (negsuc n) b s = ground arith

-- The value that `override_int` has read, and its test
abbrev read_long : Bytes → ℤ
read_long text = long_value (scan_number text).negative (scan_number text).magnitude

abbrev is_taken : Bytes → ℕ → ℕ → Bool
is_taken text low high =
    is_end (scan_number text).end
    && leb_ℤ (pos low) (read_long text)
    && leb_ℤ (read_long text) (pos high)

override-Between :
    (text : Option Bytes) (low high scale : ℕ) (old : ℤ)
    → (1 ≤ low) × (high * scale < 2 ^ 31) × (1 ≤ scale)
    → Between (low * scale) (high * scale) old
    → Between
        (low * scale)
        (high * scale)
        (apply_int_env_override text (pos low) (pos high) scale old)
unfolding apply_int_env_override override_int
override-Between none low high scale old s b = b
override-Between (some text) low high scale old s b = elim (Bool-cases (is_taken text low high)) [
  | inl taken ↦ ground (arith, int_of_long-Between low high scale (read_long text) (ground arith) s)
  | inr left ↦ ground arith
]

-- Whatever the environment holds, a configuration whose numeric options are in their ranges has them
-- there after `apply_env_overrides`.
pub apply_env_overrides-InRanges :
    (getenv : Bytes → Option Bytes) (c : ServerConfig)
    → InRanges c
    → InRanges (apply_env_overrides getenv c)
unfolding apply_env_overrides
apply_env_overrides-InRanges getenv c h = record {
  server = record {
    port = override-Between _ 1 65535 1 _ (omega arith) h.server.port;
    max_connections = override-Between _ 1 1000000 1 _ (omega arith) h.server.max_connections;
    shutdown_timeout_seconds =
        override-Between _ 1 300 1 _ (omega arith) h.server.shutdown_timeout_seconds;
    request_timeout_ms = override-Between _ 1 300 1000 _ (omega arith) h.server.request_timeout_ms;
    tls_handshake_timeout_ms =
        override-Between _ 1 60 1000 _ (omega arith) h.server.tls_handshake_timeout_ms;
    per_ip_connection_limit =
        override-Between _ 1 10000 1 _ (omega arith) h.server.per_ip_connection_limit;
  };
  logging = h.logging;
  ssl = record {
    session_cache_size = h.ssl.session_cache_size;
    session_timeout = h.ssl.session_timeout;
    read_buffer_size = h.ssl.read_buffer_size;
  };
  http2 = h.http2;
}

-- A variable of decimal digits sets an option to its value times the scale where the value is within the
-- limits, and leaves the option as it was where it is not. The limits are below 2^31 also when scaled,
-- and a value from 2^63 on is as much out of range as any other.
pub apply_int_env_override-decimal :
    (d : ℕ) (ds : Bytes) (low high scale : ℕ) (old : ℤ)
    → AllDigits (d ∷ ds)
    → (1 ≤ scale) × (high < 2 ^ 31) × (high * scale < 2 ^ 31)
    → apply_int_env_override (some (d ∷ ds)) (pos low) (pos high) scale old ≡ (
        if leb low (decimal 0 (d ∷ ds)) && leb (decimal 0 (d ∷ ds)) high
        then pos (decimal 0 (d ∷ ds) * scale)
        else old)
unfolding apply_int_env_override override_int long_value long_overflows times int_of_long
    int_of_bits
apply_int_env_override-decimal d ds low high scale old a s =
    elim (Bool-cases (leb (decimal 0 (d ∷ ds)) high)) [
      | inl below ↦ ground (
        arith,
        scan_number-decimal d ds a,
        times_mono (decimal 0 (d ∷ ds)) high scale (leb→le _ _ below),
      )
      | inr above ↦ ground (arith, scan_number-decimal d ds a)
    ]

-- The paths of the certificate and the key are taken over unchecked: with EMME_SSL_CERT_PATH set to the
-- empty text no configuration passes `validate_config` any more.
pub apply_env_overrides_unvalidated :
    (getenv : Bytes → Option Bytes) (c : ServerConfig)
    → getenv (codes "EMME_SSL_CERT_PATH") ≡ some []
    → validate_config (apply_env_overrides getenv c) ≡ false
unfolding validate_config apply_env_overrides apply_string_env_override
apply_env_overrides_unvalidated getenv c h = ground (arith, h)
