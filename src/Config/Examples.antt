-- ===== src/Config/Examples.antt =====
-- A document of two routes, and the theorems on src/config.c at it.
use emme.Prelude.{
  ◌≡◌, refl, if◌then◌else◌, pos, Option, none, some, [], ◌∷◌, Bytes, codes, str_eq, arith,
}
use emme.Config.Yaml.{Node, scalar, sequence, mapping, no_items, item, no_pairs, pair}
use emme.Config.Types.{ServerConfig}
use emme.Config.Backend.Form.{parse_backend_url-form}
use emme.Config.Routes.Fits.{FitTable}
use emme.Config.Load.{apply_env_overrides}
use emme.Config.Load.Ranges.{InRanges}
use emme.Config.Load.Accepted.{load_config-InRanges, load_config-FitTable}
use emme.Config.Load.Valid.{Valid, load_config-Valid}
use emme.Config.Load.Environment.{apply_env_overrides-InRanges}
use emme.Config.Yaml.{find_pair, find_yaml_node, is_key}
use emme.Config.Numbers.{
  is_space, is_digit, skip_spaces, read_digits, starts_with_digit, read_sign, scan_number,
  long_overflows, long_value, parse_int_in_range, int_of_bits, int_of_long,
}
use emme.Config.Fields.{
  get_yaml_string, get_yaml_int_in_range, parse_int_field, int_of, parse_string_field, string_of,
  read_bool, parse_bool_field, bool_of, read_string, read_int,
}
use emme.Config.Nested.{
  parse_health_check_config, parse_connection_pool_config, parse_circuit_breaker_config,
  parse_security_headers_config, security_headers_of, headers_of, parse_cors_config,
}
use emme.Config.Sections.{parse_server_section}
use emme.Config.Backend.{
  scan_host, scan_port, after_colon, in_port_range, scan_backend, parse_backend_url,
}
use emme.Config.Routes.{
  parse_route, parse_route_entry, parse_entries, parse_routes_section, resolve_root, required_of,
  validate_routes, validate_route, validate_backend, starts_with_slash,
}
use emme.Config.Load.{load_config, load_sections, on_section, validate_config, checked}
use emme.Config.Types.{config_defaults}

abbrev text : Bytes → Node
text s = scalar s

abbrev static_route : Node
static_route = mapping (
    pair (text (codes "path")) (text (codes "/static/")) (
      pair (text (codes "technology")) (text (codes "static"))
        (pair (text (codes "document_root")) (text (codes "www")) no_pairs)))

abbrev proxy_route : Node
proxy_route = mapping (
    pair (text (codes "path")) (text (codes "/api/")) (
      pair (text (codes "technology")) (text (codes "reverse_proxy"))
        (pair (text (codes "backend")) (text (codes "h:80")) no_pairs)))

abbrev document : Node
document = mapping (
    pair (text (codes "server"))
      (mapping (pair (text (codes "port")) (text (codes "9000")) no_pairs))
      (pair (text (codes "routes")) (sequence (item static_route (item proxy_route no_items)))
        no_pairs))

abbrev no_realpath : Bytes → Option Bytes
no_realpath path = none

abbrev or_defaults : Option ServerConfig → ServerConfig
or_defaults none = config_defaults
or_defaults (some c) = c

abbrev loaded : ServerConfig
loaded = or_defaults (load_config no_realpath (some document))

load_config-document : load_config no_realpath (some document) ≡ some loaded
unfolding find_pair find_yaml_node is_key is_space is_digit skip_spaces read_digits
    starts_with_digit read_sign scan_number long_overflows long_value parse_int_in_range int_of_bits
    int_of_long get_yaml_string get_yaml_int_in_range parse_int_field int_of parse_string_field
    string_of read_bool parse_bool_field bool_of read_string read_int parse_health_check_config
    parse_connection_pool_config parse_circuit_breaker_config parse_security_headers_config
    security_headers_of headers_of parse_cors_config parse_server_section scan_host scan_port
    after_colon in_port_range scan_backend parse_backend_url parse_route parse_route_entry
    parse_entries parse_routes_section resolve_root required_of validate_routes validate_route
    validate_backend starts_with_slash load_config load_sections on_section validate_config checked
    config_defaults str_eq
load_config-document = refl

load_config-InRanges_example : InRanges loaded
load_config-InRanges_example =
    load_config-InRanges no_realpath (some document) loaded load_config-document

load_config-FitTable_example : FitTable loaded.routes
load_config-FitTable_example =
    load_config-FitTable no_realpath (some document) loaded load_config-document

load_config-Valid_example : Valid loaded
load_config-Valid_example =
    load_config-Valid no_realpath (some document) loaded load_config-document

parse_backend_url-form_example : parse_backend_url (codes "h:80") 64 ≡ some (codes "h", pos 80)
parse_backend_url-form_example =
    parse_backend_url-form 64 b'h' b'8' [] (b'0' ∷ []) (grind arith, tt) (omega arith)
      (omega arith, omega arith, (omega arith, omega arith, tt)) (omega arith) (omega arith)

address_parsed : parse_backend_url (codes "h:80") 64 ≡ some (codes "h", pos 80)
unfolding scan_number read_sign skip_spaces is_space starts_with_digit is_digit read_digits
    long_value long_overflows int_of_long int_of_bits scan_host scan_port after_colon in_port_range
    scan_backend parse_backend_url
address_parsed = refl

-- An environment that sets the port only
abbrev environment : Bytes → Option Bytes
environment name = if str_eq name (codes "EMME_PORT") then some (codes "99999") else none

apply_env_overrides-InRanges_example : InRanges (apply_env_overrides environment loaded)
apply_env_overrides-InRanges_example =
    apply_env_overrides-InRanges environment loaded
      (load_config-InRanges no_realpath (some document) loaded load_config-document)
