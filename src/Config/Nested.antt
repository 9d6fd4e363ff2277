-- ===== src/Config/Nested.antt =====
-- The nested sections of a route in src/config.c. None of them can fail: a field that cannot be read
-- keeps its default (a string that is too long is cut).
use emme.Prelude.{
  ℕ, false, if◌then◌else◌, ltb, pos, Option, none, some, List, [], ◌∷◌, ◌++◌, Bytes, codes, length,
}
use emme.Config.Yaml.{
  Node, scalar, sequence, mapping, Nodes, no_items, item, find_yaml_node, is_mapping,
}
use emme.Config.Fields.{get_yaml_string, read_bool, read_int, read_string, if_read}
use emme.Config.Types.{
  HealthCheckConfig, ConnectionPoolConfig, CircuitBreakerConfig, SecurityHeader,
  SecurityHeadersConfig, CorsConfig,
}

-- A node that is there and is a mapping
abbrev pub mapping_of : Option Node → Option Node
mapping_of none = none
mapping_of (some n) = if is_mapping n then some n else none

unfoldable pub health_check_of : Option Node → HealthCheckConfig → HealthCheckConfig
health_check_of none hc = hc
health_check_of (some node) hc = record {
  enabled = read_bool node (codes "enabled") false;
  path = read_string node (codes "path") 128 (codes "/health");
  interval_seconds = read_int node (codes "interval_seconds") (pos 10);
  timeout_seconds = read_int node (codes "timeout_seconds") (pos 5);
  unhealthy_threshold = read_int node (codes "unhealthy_threshold") (pos 3);
  healthy_threshold = read_int node (codes "healthy_threshold") (pos 2);
}

-- `parse_health_check_config`: with no mapping the record is left as it was.
unfoldable pub parse_health_check_config : Option Node → HealthCheckConfig → HealthCheckConfig
unfolding health_check_of
parse_health_check_config node hc = health_check_of (mapping_of node) hc

abbrev default_connection_pool : ConnectionPoolConfig
default_connection_pool = record { size = pos 10; idle_timeout_seconds = pos 60 }

connection_pool_of : Option Node → ConnectionPoolConfig
connection_pool_of none = default_connection_pool
connection_pool_of (some node) = record {
  size = read_int node (codes "size") (pos 10);
  idle_timeout_seconds = read_int node (codes "idle_timeout_seconds") (pos 60);
}

-- `parse_connection_pool_config`
unfoldable pub parse_connection_pool_config : Option Node → ConnectionPoolConfig
unfolding connection_pool_of
parse_connection_pool_config node = connection_pool_of (mapping_of node)

circuit_breaker_of : Option Node → CircuitBreakerConfig
circuit_breaker_of none = record {
  enabled = false;
  failure_threshold = pos 5;
  recovery_timeout_seconds = pos 30;
}
circuit_breaker_of (some node) = record {
  enabled = read_bool node (codes "enabled") false;
  failure_threshold = read_int node (codes "failure_threshold") (pos 5);
  recovery_timeout_seconds = read_int node (codes "recovery_timeout_seconds") (pos 30);
}

-- `parse_circuit_breaker_config`
unfoldable pub parse_circuit_breaker_config : Option Node → CircuitBreakerConfig
unfolding circuit_breaker_of
parse_circuit_breaker_config node = circuit_breaker_of (mapping_of node)

-- MAX_SECURITY_HEADERS, MAX_HEADER_NAME, MAX_HEADER_VALUE
abbrev pub max_security_headers : ℕ
max_security_headers = 10

abbrev pub max_header_name : ℕ
max_header_name = 64

abbrev pub max_header_value : ℕ
max_header_value = 256

unfoldable pub header_from : Option Bytes → Option Bytes → Option SecurityHeader
header_from (some name) (some value) = some (record { name = name; value = value })
header_from (some name) none = none
header_from none value = none

unfoldable pub text_of : Option Node → ℕ → Option Bytes
text_of none size = none
text_of (some n) size = if_read (get_yaml_string n size [])

-- One entry of the sequence `headers`: an entry that is no mapping, or whose name or value is missing
-- or cannot be read, is passed over.
unfoldable pub parse_header : Node → Option SecurityHeader
unfolding header_from text_of
parse_header node =
    if is_mapping node
    then header_from (text_of (find_yaml_node node (codes "name")) max_header_name)
        (text_of (find_yaml_node node (codes "value")) max_header_value)
    else none

unfoldable pub append_header : Option SecurityHeader → List SecurityHeader → List SecurityHeader
append_header none headers = headers
append_header (some h) headers = headers ++ (h ∷ [])

-- The loop over the sequence, which stops when the array is full.
unfoldable pub parse_headers : Nodes → List SecurityHeader → List SecurityHeader
unfolding append_header
parse_headers no_items headers = headers
parse_headers (item node rest) headers =
    let more = parse_headers rest (append_header (parse_header node) headers) in
    if ltb (length headers) max_security_headers then more else headers

unfoldable pub headers_of : Option Node → List SecurityHeader
headers_of (some (sequence items)) = parse_headers items []
headers_of (some (mapping pairs)) = []
headers_of (some (scalar value)) = []
headers_of none = []

unfoldable pub security_headers_of : Option Node → SecurityHeadersConfig
security_headers_of none = record { enabled = false; headers = [] }
security_headers_of (some node) = record {
  enabled = read_bool node (codes "enabled") false;
  headers = headers_of (find_yaml_node node (codes "headers"));
}

-- `parse_security_headers_config`
unfoldable pub parse_security_headers_config : Option Node → SecurityHeadersConfig
unfolding security_headers_of headers_of
parse_security_headers_config node = security_headers_of (mapping_of node)

unfoldable pub cors_of : Option Node → CorsConfig → CorsConfig
cors_of none cors = record cors {
  enabled = false;
  allow_credentials = false;
  max_age_seconds = pos 86400;
}
cors_of (some node) cors = record {
  enabled = read_bool node (codes "enabled") false;
  allow_origin = read_string node (codes "allow_origin") 256 cors.allow_origin;
  allow_methods = read_string node (codes "allow_methods") 128 cors.allow_methods;
  allow_headers = read_string node (codes "allow_headers") 256 cors.allow_headers;
  allow_credentials = read_bool node (codes "allow_credentials") false;
  max_age_seconds = read_int node (codes "max_age_seconds") (pos 86400);
}

-- `parse_cors_config`
unfoldable pub parse_cors_config : Option Node → CorsConfig → CorsConfig
unfolding cors_of
parse_cors_config node cors = cors_of (mapping_of node) cors
