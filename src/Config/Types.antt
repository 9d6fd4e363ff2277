-- ===== src/Config/Types.antt =====
-- The records of include/config.h and include/logging_common.h, and the defaults of
-- `set_config_defaults` in src/config.c. A char array is its C string, a bool or 0/1 int a Bool.
use emme.Prelude.{ℕ, Bool, true, ℤ, pos, List, [], Bytes, codes}

pub record HealthCheckConfig : Type 0 where
  pub enabled : Bool
  pub path : Bytes
  pub interval_seconds : ℤ
  pub timeout_seconds : ℤ
  pub unhealthy_threshold : ℤ
  pub healthy_threshold : ℤ

pub record ConnectionPoolConfig : Type 0 where
  pub size : ℤ
  pub idle_timeout_seconds : ℤ

pub record CircuitBreakerConfig : Type 0 where
  pub enabled : Bool
  pub failure_threshold : ℤ
  pub recovery_timeout_seconds : ℤ

pub record SecurityHeader : Type 0 where
  pub name : Bytes
  pub value : Bytes

-- `header_count` is the length of `headers`.
pub record SecurityHeadersConfig : Type 0 where
  pub enabled : Bool
  pub headers : List SecurityHeader

pub record CorsConfig : Type 0 where
  pub enabled : Bool
  pub allow_origin : Bytes
  pub allow_methods : Bytes
  pub allow_headers : Bytes
  pub allow_credentials : Bool
  pub max_age_seconds : ℤ

-- `Route` without its connection pool
pub record Route : Type 0 where
  pub path : Bytes
  pub technology : Bytes
  pub document_root : Bytes
  pub document_root_real : Bytes
  pub document_root_resolved : Bool
  pub backend : Bytes
  pub http2_enabled : Bool
  pub tls_enabled : Bool
  pub tls_verify : Bool
  pub health_check : HealthCheckConfig
  pub connection_pool : ConnectionPoolConfig
  pub circuit_breaker : CircuitBreakerConfig
  pub security_headers : SecurityHeadersConfig
  pub inherit_global_headers : Bool
  pub cors : CorsConfig

pub record SslConfig : Type 0 where
  pub certificate : Bytes
  pub private_key : Bytes
  pub session_ticket_key : Bytes
  pub session_cache_size : ℤ
  pub session_timeout : ℤ
  pub read_buffer_size : ℤ
  pub enable_partial_write : Bool
  pub release_buffers : Bool

pub record Http2Config : Type 0 where
  pub keepalive_timeout : ℤ
  pub max_requests_per_connection : ℤ
  pub max_concurrent_streams : ℤ

pub data LogLevel : Type 0 where
  level_debug level_info level_warn level_error : LogLevel

pub data LogFormat : Type 0 where
  plain json : LogFormat

-- `appender_flags` is its two bits, APPENDER_FILE and APPENDER_CONSOLE.
pub record LoggingConfig : Type 0 where
  pub file : Bytes
  pub level : LogLevel
  pub format : LogFormat
  pub buffer_size : ℕ
  pub rollover_size : ℕ
  pub rollover_daily : Bool
  pub appender_file : Bool
  pub appender_console : Bool

-- `route_count` is the length of `routes`.
pub record ServerConfig : Type 0 where
  pub port : ℤ
  pub max_connections : ℤ
  pub shutdown_timeout_seconds : ℤ
  pub request_timeout_ms : ℤ
  pub tls_handshake_timeout_ms : ℤ
  pub per_ip_connection_limit : ℤ
  pub log_level : Bytes
  pub routes : List Route
  pub logging : LoggingConfig
  pub ssl : SslConfig
  pub http2 : Http2Config
  pub security_headers : SecurityHeadersConfig

-- `set_config_defaults`
unfoldable pub config_defaults : ServerConfig
config_defaults = record {
  port = pos 8443;
  max_connections = pos 100;
  shutdown_timeout_seconds = pos 30;
  request_timeout_ms = pos 30000;
  tls_handshake_timeout_ms = pos 10000;
  per_ip_connection_limit = pos 10;
  log_level = codes "info";
  routes = [];
  logging = record {
    file = codes "emme.log";
    level = level_debug;
    format = plain;
    buffer_size = 16384;
    rollover_size = 10485760;
    rollover_daily = true;
    appender_file = true;
    appender_console = true;
  };
  ssl = record {
    certificate = codes "certs/dev.crt";
    private_key = codes "certs/dev.key";
    session_ticket_key = [];
    session_cache_size = pos 100000;
    session_timeout = pos 300;
    read_buffer_size = pos 32768;
    enable_partial_write = true;
    release_buffers = true;
  };
  http2 = record {
    keepalive_timeout = pos 60;
    max_requests_per_connection = pos 1000;
    max_concurrent_streams = pos 100;
  };
  security_headers = record { enabled = true; headers = [] };
}
