-- ===== src/Router/Sample.antt =====
-- A configuration with a static route and a proxied one, and a file system, for the examples.
use emme.Prelude.{
  none, ◌≡◌, refl, true, false, pos, some, [], ◌∷◌, codes, str_eq, has_prefix, Option, Bytes, ℕ,
  Bool,
}
use emme.Config.Types.{ServerConfig, Route, config_defaults}
use emme.Config.Routes.{zero_health_check, zero_cors}
use emme.Router.Choice.{find_route, find_reverse_proxy_route, has_matching_proxy_route, any_proxy}
use emme.Router.Files.{
  FileSystem, ready, last_dot, type_of, guess_content_type, ends_with_slash, file_path,
  root_real_of, starts_component, is_inside, sized, checked_file, opened, lookup_in, lookup_route,
  lookup_static_file, no_route,
}
use emme.Http2Response.{Http2Response, h2_response_init}
use emme.Router.Dispatch.{
  route_request_h2, serve_static_h2, serve_lookup, after_static, or_not_implemented,
  proxy_request_http2, populate_http2_response,
}

abbrev pub plain_route : Route
plain_route = record {
  path = codes "/s/";
  technology = codes "static";
  document_root = codes "w";
  document_root_real = codes "/w";
  document_root_resolved = true;
  backend = [];
  http2_enabled = false;
  tls_enabled = true;
  tls_verify = false;
  health_check = zero_health_check;
  connection_pool = record { size = pos 10; idle_timeout_seconds = pos 60 };
  circuit_breaker = record {
    enabled = false;
    failure_threshold = pos 5;
    recovery_timeout_seconds = pos 30;
  };
  security_headers = record { enabled = false; headers = [] };
  inherit_global_headers = true;
  cors = zero_cors;
}

abbrev pub proxied : Route
proxied = record plain_route {
  path = codes "/a/";
  technology = codes "reverse_proxy";
  backend = codes "h:80";
}

abbrev pub two_routes : ServerConfig
two_routes = record config_defaults { routes = plain_route ∷ proxied ∷ [] }

-- Every file is there, under the name that was asked for with a slash in front.
abbrev pub files : FileSystem
files = record {
  realpath = λ path. some (b'/' ∷ path);
  opens = λ path. true;
  end_of = λ path. some 7;
}

pub file_found :
    lookup_static_file files two_routes (codes "/s/a.css")
    ≡ ready (codes "w/a.css") 7 (codes "text/css")
unfolding config_defaults str_eq has_prefix find_route last_dot type_of guess_content_type
    ends_with_slash file_path root_real_of starts_component is_inside sized checked_file opened
    lookup_in lookup_route lookup_static_file
file_found = refl

-- Reads that fail, and a proxy that fails with its response prepared
abbrev pub no_reads : Bytes → ℕ → Option Bytes
no_reads file size = none

abbrev pub refusing : Route → Http2Response → Bool × Http2Response
refusing route r = (false, record r { status_code = pos 503 })

pub unrouted : lookup_static_file files two_routes (codes "/a/x") ≡ no_route
unfolding config_defaults str_eq has_prefix find_route lookup_route lookup_static_file
unrouted = refl

pub proxy_found : find_reverse_proxy_route (codes "/a/x") two_routes ≡ some proxied
unfolding config_defaults str_eq has_prefix find_route find_reverse_proxy_route
proxy_found = refl

pub is_answered_501 :
    (route_request_h2 files no_reads refusing false two_routes (codes "/a/x") h2_response_init).0
    ≡ true
unfolding route_request_h2 serve_static_h2 serve_lookup after_static or_not_implemented
    proxy_request_http2 populate_http2_response has_matching_proxy_route any_proxy
    find_reverse_proxy_route find_route lookup_static_file lookup_route str_eq has_prefix
    config_defaults
is_answered_501 = refl
