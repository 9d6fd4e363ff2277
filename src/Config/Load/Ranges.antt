-- ===== src/Config/Load/Ranges.antt =====
-- The ranges of the numeric options of src/config.c.
use emme.Prelude.{
  List, ℕ, ◌≤◌, ◌≡◌, true, ℤ, pos, leb_ℤ, some, Bytes, arith, Option-cases, inl, inr,
}
use emme.Config.Yaml.{Node, scalar, sequence, mapping, find_yaml_node}
use emme.Config.Numbers.{parse_int_in_range, parse_size_in_range}
use emme.Config.Fields.{
  get_yaml_int_in_range, get_yaml_size_in_range, parse_int_field, parse_size_field, int_of, size_of,
}
use emme.Config.Types.{
  ServerConfig, LoggingConfig, SslConfig, Http2Config, Route, SecurityHeadersConfig,
  config_defaults,
}

-- low <= v <= high
abbrev pub Between : ℕ → ℕ → ℤ → Type 0
Between low high v = (leb_ℤ (pos low) v ≡ true) × (leb_ℤ v (pos high) ≡ true)

get_yaml_int_Between :
    (n : Node) (low high : ℕ) (v : ℤ)
    → get_yaml_int_in_range n (pos low) (pos high) ≡ some v
    → Between low high v
unfolding get_yaml_int_in_range parse_int_in_range
get_yaml_int_Between (scalar text) low high v h = ground arith
get_yaml_int_Between (sequence items) low high v h = ground arith
get_yaml_int_Between (mapping pairs) low high v h = ground arith

-- A field that is read is in its range, and one that is absent stays in it.
pub parse_int_field-Between :
    (node : Node) (name : Bytes) (low high : ℕ) (old v : ℤ)
    → parse_int_field node name (pos low) (pos high) old ≡ some v
    → Between low high old
    → Between low high v
unfolding parse_int_field int_of
parse_int_field-Between node name low high old v h b =
    elim (Option-cases (find_yaml_node node name)) [
      | inl e ↦ ground (arith, e)
      | inr (n, e) ↦ get_yaml_int_Between n low high v (ground (arith, e))
    ]

get_yaml_size_Between :
    (n : Node) (low high v : ℕ)
    → get_yaml_size_in_range n low high ≡ some v
    → (low ≤ v) × (v ≤ high)
unfolding get_yaml_size_in_range parse_size_in_range
get_yaml_size_Between (scalar text) low high v h = ground arith
get_yaml_size_Between (sequence items) low high v h = ground arith
get_yaml_size_Between (mapping pairs) low high v h = ground arith

pub parse_size_field-Between :
    (node : Node) (name : Bytes) (low high old v : ℕ)
    → parse_size_field node name low high old ≡ some v
    → (low ≤ old) × (old ≤ high)
    → (low ≤ v) × (v ≤ high)
unfolding parse_size_field size_of
parse_size_field-Between node name low high old v h b =
    elim (Option-cases (find_yaml_node node name)) [
      | inl e ↦ ground (arith, e)
      | inr (n, e) ↦ get_yaml_size_Between n low high v (ground (arith, e))
    ]

-- The numeric options in the ranges of the sections that read them
pub record ServerRanges (c : ServerConfig) : Type 0 where
  pub port : Between 1 65535 c.port
  pub max_connections : Between 1 1000000 c.max_connections
  pub shutdown_timeout_seconds : Between 1 300 c.shutdown_timeout_seconds
  pub request_timeout_ms : Between 1000 300000 c.request_timeout_ms
  pub tls_handshake_timeout_ms : Between 1000 60000 c.tls_handshake_timeout_ms
  pub per_ip_connection_limit : Between 1 10000 c.per_ip_connection_limit

pub record LoggingRanges (c : LoggingConfig) : Type 0 where
  pub buffer_size : (1 ≤ c.buffer_size) × (c.buffer_size ≤ 1048576)
  pub rollover_size : (0 ≤ c.rollover_size) × (c.rollover_size ≤ 1099511627776)

pub record SslRanges (c : SslConfig) : Type 0 where
  pub session_cache_size : Between 1000 1000000 c.session_cache_size
  pub session_timeout : Between 60 3600 c.session_timeout
  pub read_buffer_size : Between 4096 65536 c.read_buffer_size

pub record Http2Ranges (c : Http2Config) : Type 0 where
  pub keepalive_timeout : Between 10 300 c.keepalive_timeout
  pub max_requests_per_connection : Between 1 100000 c.max_requests_per_connection
  pub max_concurrent_streams : Between 1 1000 c.max_concurrent_streams

pub record InRanges (c : ServerConfig) : Type 0 where
  pub server : ServerRanges c
  pub logging : LoggingRanges c.logging
  pub ssl : SslRanges c.ssl
  pub http2 : Http2Ranges c.http2

pub config_defaults-InRanges : InRanges config_defaults
unfolding config_defaults
config_defaults-InRanges = record {
  server = record {
    port = ground arith;
    max_connections = ground arith;
    shutdown_timeout_seconds = ground arith;
    request_timeout_ms = ground arith;
    tls_handshake_timeout_ms = ground arith;
    per_ip_connection_limit = ground arith;
  };
  logging = record { buffer_size = ground arith; rollover_size = ground arith };
  ssl = record {
    session_cache_size = ground arith;
    session_timeout = ground arith;
    read_buffer_size = ground arith;
  };
  http2 = record {
    keepalive_timeout = ground arith;
    max_requests_per_connection = ground arith;
    max_concurrent_streams = ground arith;
  };
}

-- The routes and the security headers play no part.
pub InRanges-other :
    (c : ServerConfig) (routes : List Route) (headers : SecurityHeadersConfig)
    → InRanges c
    → InRanges (record c { routes = routes; security_headers = headers })
InRanges-other c routes headers h = record {
  server = record {
    port = h.server.port;
    max_connections = h.server.max_connections;
    shutdown_timeout_seconds = h.server.shutdown_timeout_seconds;
    request_timeout_ms = h.server.request_timeout_ms;
    tls_handshake_timeout_ms = h.server.tls_handshake_timeout_ms;
    per_ip_connection_limit = h.server.per_ip_connection_limit;
  };
  logging = h.logging;
  ssl = h.ssl;
  http2 = h.http2;
}
