-- ===== src/Router/Choice.antt =====
-- Route matching in src/router.c: the first route whose path is a prefix of the request's.
use emme.Prelude.{
  Bool, true, false, if◌then◌else◌, ◌&&◌, Option, none, some, List, [], ◌∷◌, Bytes, codes, str_eq,
  has_prefix,
}
use emme.Config.Types.{ServerConfig, Route, SecurityHeadersConfig, CorsConfig}
use emme.Config.Routes.{zero_cors}

-- `strncmp(req->path, route->path, strlen(route->path)) == 0`
abbrev pub matches : Bytes → Route → Bool
matches path r = has_prefix path r.path

abbrev pub is_technology : Bytes → Route → Bool
is_technology t r = str_eq r.technology t

abbrev pub no_security_headers : SecurityHeadersConfig
no_security_headers = record { enabled = false; headers = [] }

unfoldable pub security_headers_from :
    SecurityHeadersConfig → List Route → Bytes → SecurityHeadersConfig
security_headers_from global [] path = global
security_headers_from global (r ∷ rs) path =
    let rest = security_headers_from global rs path in
    if matches path r
    then if r.security_headers.enabled
      then r.security_headers
      else if r.inherit_global_headers
      then global
      else no_security_headers
    else rest

-- `get_security_headers_for_request`
unfoldable pub get_security_headers_for_request : Bytes → ServerConfig → SecurityHeadersConfig
unfolding security_headers_from
get_security_headers_for_request path c = security_headers_from c.security_headers c.routes path

unfoldable pub cors_from : List Route → Bytes → CorsConfig
cors_from [] path = zero_cors
cors_from (r ∷ rs) path =
    let rest = cors_from rs path in
    if matches path r then (if r.cors.enabled then r.cors else zero_cors) else rest

-- `get_cors_config_for_request`
unfoldable pub get_cors_config_for_request : Bytes → ServerConfig → CorsConfig
unfolding cors_from
get_cors_config_for_request path c = cors_from c.routes path

-- The first route of a technology that matches
unfoldable pub find_route : Bytes → List Route → Bytes → Option Route
find_route technology [] path = none
find_route technology (r ∷ rs) path =
    let rest = find_route technology rs path in
    if is_technology technology r && matches path r then some r else rest

-- `find_reverse_proxy_route`
unfoldable pub find_reverse_proxy_route : Bytes → ServerConfig → Option Route
find_reverse_proxy_route path c = find_route (codes "reverse_proxy") c.routes path

unfoldable pub any_proxy : List Route → Bytes → Bool
any_proxy [] path = false
any_proxy (r ∷ rs) path =
    let rest = any_proxy rs path in
    if is_technology (codes "reverse_proxy") r && matches path r then true else rest

-- `has_matching_proxy_route`
unfoldable pub has_matching_proxy_route : Bytes → ServerConfig → Bool
unfolding any_proxy
has_matching_proxy_route path c = any_proxy c.routes path
