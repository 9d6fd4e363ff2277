-- ===== src/Config/Load.antt =====
-- `validate_config`, `load_config` and `apply_env_overrides` of src/config.c.
pub mod Ranges
pub mod Keeps
pub mod Accepted
pub mod Valid
pub mod Environment
use emme.Prelude.{
  ℕ, ◌-◌, ◌*◌, Bool, true, false, not, if◌then◌else◌, ◌||◌, ◌&&◌, ◌==◌, ◌+◌, ℤ, pos, negsuc,
  neg_part, leb_ℤ, Option, none, some, ◌>>=◌, Bytes, codes, take,
}
use emme.Config.Yaml.{Node, find_yaml_node, is_mapping}
use emme.Config.Numbers.{scan_number, long_value, int_of_long, is_end}
use emme.Config.Types.{ServerConfig, config_defaults}
use emme.Config.Nested.{parse_security_headers_config}
use emme.Config.Sections.{
  parse_server_section, parse_logging_section, parse_ssl_section, parse_http2_section,
}
use emme.Config.Routes.{parse_routes_section, validate_routes}

-- `validate_config`: whether it returns 0
unfoldable pub validate_config : ServerConfig → Bool
validate_config c =
    if is_end c.ssl.certificate || is_end c.ssl.private_key
    then false
    else if not (c.logging.appender_file || c.logging.appender_console)
    then false
    else if c.logging.appender_file && is_end c.logging.file
    then false
    else validate_routes c.routes

-- A section of the document, where it is there
unfoldable pub on_section :
    (ServerConfig → Node → Option ServerConfig) → Option Node → ServerConfig → Option ServerConfig
on_section parse none c = some c
on_section parse (some node) c = parse c node

unfoldable pub checked : ServerConfig → Option ServerConfig
checked c = if validate_config c then some c else none

unfoldable pub load_sections : (Bytes → Option Bytes) → Node → Option ServerConfig
unfolding checked
load_sections realpath root = do
  c1 ← on_section parse_server_section (find_yaml_node root (codes "server")) config_defaults
  c2 ← on_section parse_logging_section (find_yaml_node root (codes "logging")) c1
  c3 ← on_section parse_ssl_section (find_yaml_node root (codes "ssl")) c2
  c4 ← on_section parse_http2_section (find_yaml_node root (codes "http2")) c3
  c5 ← on_section (parse_routes_section realpath) (find_yaml_node root (codes "routes")) c4
  checked (record c5 {
    security_headers =
        parse_security_headers_config (find_yaml_node root (codes "security_headers"));
  })

-- `load_config` on what libyaml has made of the file: `none` where the file cannot be opened or parsed or
-- has no document. The result is the configuration where 0 is returned.
unfoldable pub load_config : (Bytes → Option Bytes) → Option Node → Option ServerConfig
load_config realpath none = none
load_config realpath (some root) = if is_mapping root then load_sections realpath root else none

times : ℤ → ℕ → ℤ
times (pos n) scale = pos (n * scale)
times (negsuc n) scale = if scale == 0 then pos 0 else negsuc ((n + 1) * scale - 1)

unfoldable pub override_int : Bytes → ℤ → ℤ → ℕ → ℤ → ℤ
unfolding times
override_int text low high scale old =
    let s = scan_number text in
    let value = long_value s.negative s.magnitude in
    if is_end s.end && leb_ℤ low value && leb_ℤ value high
    then int_of_long (times value scale)
    else old

-- `apply_int_env_override` on what getenv returns
unfoldable pub apply_int_env_override : Option Bytes → ℤ → ℤ → ℕ → ℤ → ℤ
apply_int_env_override none low high scale old = old
apply_int_env_override (some text) low high scale old = override_int text low high scale old

-- `apply_string_env_override`
unfoldable pub apply_string_env_override : Option Bytes → ℕ → Bytes → Bytes
apply_string_env_override none max_len old = old
apply_string_env_override (some text) max_len old = take (max_len - 1) text

-- `apply_env_overrides`, with getenv as a parameter
unfoldable pub apply_env_overrides : (Bytes → Option Bytes) → ServerConfig → ServerConfig
apply_env_overrides getenv c = record c {
  port = apply_int_env_override (getenv (codes "EMME_PORT")) (pos 1) (pos 65535) 1 c.port;
  log_level = apply_string_env_override (getenv (codes "EMME_LOG_LEVEL")) 16 c.log_level;
  shutdown_timeout_seconds =
      apply_int_env_override (getenv (codes "EMME_SHUTDOWN_TIMEOUT")) (pos 1) (pos 300) 1
        c.shutdown_timeout_seconds;
  max_connections =
      apply_int_env_override (getenv (codes "EMME_MAX_CONNECTIONS")) (pos 1) (pos 1000000) 1
        c.max_connections;
  ssl = record c.ssl {
    certificate =
        apply_string_env_override (getenv (codes "EMME_SSL_CERT_PATH")) 256 c.ssl.certificate;
    private_key =
        apply_string_env_override (getenv (codes "EMME_SSL_KEY_PATH")) 256 c.ssl.private_key;
  };
  request_timeout_ms =
      apply_int_env_override (getenv (codes "EMME_REQUEST_TIMEOUT")) (pos 1) (pos 300) 1000
        c.request_timeout_ms;
  tls_handshake_timeout_ms =
      apply_int_env_override (getenv (codes "EMME_TLS_HANDSHAKE_TIMEOUT")) (pos 1) (pos 60) 1000
        c.tls_handshake_timeout_ms;
  per_ip_connection_limit =
      apply_int_env_override (getenv (codes "EMME_PER_IP_CONNECTION_LIMIT")) (pos 1) (pos 10000) 1
        c.per_ip_connection_limit;
}
