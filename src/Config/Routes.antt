-- ===== src/Config/Routes.antt =====
-- The routes of src/config.c: `parse_route_entry`, `parse_routes_section` and `validate_routes`.
pub mod Buffers
pub mod Fits
pub mod Served
use emme.Prelude.{
  ℕ, ◌-◌, Bool, true, false, not, if◌then◌else◌, ltb, leb, ◌==◌, ◌||◌, ℤ, pos, Option, none, some,
  ◌>>=◌, List, [], ◌∷◌, ◌++◌, Bytes, codes, str_eq, length, take, is_none,
}
use emme.Config.Yaml.{
  Node, scalar, sequence, mapping, Nodes, no_items, item, find_yaml_node, is_mapping,
}
use emme.Config.Fields.{get_yaml_string, parse_string_field, read_bool, if_read}
use emme.Config.Types.{ServerConfig, Route, HealthCheckConfig, CorsConfig}
use emme.Config.Numbers.{is_end}
use emme.Config.Nested.{
  parse_health_check_config, parse_connection_pool_config, parse_circuit_breaker_config,
  parse_security_headers_config, parse_cors_config,
}
use emme.Config.Backend.{parse_backend_url}

-- MAX_ROUTES
abbrev pub max_routes : ℕ
max_routes = 16

-- What `memset(route, 0, sizeof(*route))` leaves in the parts that a parser may not write.
abbrev pub zero_health_check : HealthCheckConfig
zero_health_check = record {
  enabled = false;
  path = [];
  interval_seconds = pos 0;
  timeout_seconds = pos 0;
  unhealthy_threshold = pos 0;
  healthy_threshold = pos 0;
}

abbrev pub zero_cors : CorsConfig
zero_cors = record {
  enabled = false;
  allow_origin = [];
  allow_methods = [];
  allow_headers = [];
  allow_credentials = false;
  max_age_seconds = pos 0;
}

-- A field that has to be there
unfoldable pub required_of : Option Node → ℕ → Option Bytes
required_of none size = none
required_of (some n) size = if_read (get_yaml_string n size [])

-- `document_root_real` and `document_root_resolved`; `realpath` is a parameter, with `none` for NULL.
real_root_of : Option Bytes → Bytes → Bytes × Bool
real_root_of (some real) root = (real, true)
real_root_of none root = (take 4095 root, false)

unfoldable pub resolve_root : (Bytes → Option Bytes) → Bytes → Bytes × Bool
unfolding real_root_of
resolve_root realpath root = if is_end root then ([], false) else real_root_of (realpath root) root

-- The route that `parse_route_entry` builds; `none` is -1.
unfoldable pub parse_route : (Bytes → Option Bytes) → Node → Option Route
unfolding required_of
parse_route realpath node = do
  path ← required_of (find_yaml_node node (codes "path")) 128
  technology ← required_of (find_yaml_node node (codes "technology")) 32
  root ← parse_string_field node (codes "document_root") 256 []
  backend ← parse_string_field node (codes "backend") 64 []
  some (record {
    path = path;
    technology = technology;
    document_root = root;
    document_root_real = (resolve_root realpath root).0;
    document_root_resolved = (resolve_root realpath root).1;
    backend = backend;
    http2_enabled = read_bool node (codes "http2_enabled") false;
    tls_enabled = read_bool node (codes "tls_enabled") true;
    tls_verify = read_bool node (codes "tls_verify") false;
    health_check =
        parse_health_check_config (find_yaml_node node (codes "health_check")) zero_health_check;
    connection_pool = parse_connection_pool_config (find_yaml_node node (codes "connection_pool"));
    circuit_breaker = parse_circuit_breaker_config (find_yaml_node node (codes "circuit_breaker"));
    security_headers =
        parse_security_headers_config (find_yaml_node node (codes "security_headers"));
    inherit_global_headers = read_bool node (codes "inherit_global_headers") true;
    cors = parse_cors_config (find_yaml_node node (codes "cors")) zero_cors;
  })

-- `parse_route_entry`, on the routes read so far
unfoldable pub parse_route_entry : (Bytes → Option Bytes) → List Route → Node → Option (List Route)
parse_route_entry realpath routes node =
    if leb max_routes (length routes)
    then none
    else (do route ← parse_route realpath node; some (routes ++ (route ∷ [])))

unfoldable pub parse_entries : (Bytes → Option Bytes) → Nodes → List Route → Option (List Route)
parse_entries realpath no_items routes = some routes
parse_entries realpath (item node rest) routes =
    if is_mapping node
    then (do routes' ← parse_route_entry realpath routes node; parse_entries realpath rest routes')
    else none

-- `parse_routes_section`
unfoldable pub parse_routes_section :
    (Bytes → Option Bytes) → ServerConfig → Node → Option ServerConfig
parse_routes_section realpath c (sequence items) = do
  routes ← parse_entries realpath items c.routes
  some (record c { routes = routes })
parse_routes_section realpath c (mapping pairs) = none
parse_routes_section realpath c (scalar value) = none

-- `validate_backend`: whether it returns 0
unfoldable pub validate_backend : Bytes → Bool
validate_backend backend = not (is_none (parse_backend_url backend 64))

-- `path[0] == '/'`
unfoldable pub starts_with_slash : Bytes → Bool
starts_with_slash [] = false
starts_with_slash (c ∷ s) = c == b'/'

-- One round of the loop of `validate_routes`
unfoldable pub validate_route : Route → Bool
validate_route r =
    if not (starts_with_slash r.path) || is_end r.technology
    then false
    else if str_eq r.technology (codes "static")
    then not (is_end r.document_root)
    else if str_eq r.technology (codes "reverse_proxy")
    then validate_backend r.backend
    else false

-- `validate_routes`: whether it returns 0
unfoldable pub validate_routes : List Route → Bool
validate_routes [] = true
validate_routes (r ∷ rs) = let rest = validate_routes rs in if validate_route r then rest else false
