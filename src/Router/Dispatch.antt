-- ===== src/Router/Dispatch.antt =====
-- `route_request_tls` of src/router.c on an HTTP/2 stream: what is answered to a request. The files and what
-- a proxied request brings are arguments; `read` is what the reads of an open file give, `none` an error.
use emme.Prelude.{
  ℕ, Bool, true, false, if◌then◌else◌, ltb, leb, ℤ, pos, Option, none, some, [], Bytes, codes,
  str_eq, length, take,
}
use emme.Config.Types.{ServerConfig, Route}
use emme.Http2Response.{
  Http2Response, buffer_size, h2_response_init, h2_response_set_status,
  h2_response_set_content_type, h2_response_set_body, h2_response_add_security_headers,
}
use emme.Router.Choice.{
  get_security_headers_for_request, get_cors_config_for_request, find_reverse_proxy_route,
  has_matching_proxy_route,
}
use emme.Router.Files.{
  FileSystem, StaticLookup, lookup_error, no_route, not_found, forbidden, ready, lookup_static_file,
}

-- `populate_http2_response`: whether it returns 0, and the response.
unfoldable pub populate_http2_response :
    Http2Response → Bytes → ℤ → Bytes → Bytes → Bool × Http2Response
populate_http2_response r body status status_text content_type =
    if leb buffer_size (length body) then (false, record r { body = take 32767 body }) else (
      true,
      record r {
        headers = [];
        body = body;
        body_len = length body;
        status_code = status;
        status_text = take 31 status_text;
        content_type = take 63 content_type;
      },
    )

abbrev pub empty_answer : Http2Response → ℤ → Bytes → Bool × Http2Response
empty_answer r status text = populate_http2_response r [] status text (codes "text/plain")

-- `send_health_response`, by whether the server is draining
unfoldable pub send_health_response : Bool → ServerConfig → Http2Response
send_health_response draining c =
    let body =
      if draining
      then codes "{\"status\":\"draining\",\"reason\":\"graceful_shutdown\"}"
      else codes "{\"status\":\"ok\"}" in
    let status = if draining then pos 503 else pos 200 in
    let text = if draining then codes "Service Unavailable" else codes "OK" in
    h2_response_add_security_headers
      (h2_response_set_body
        (h2_response_set_content_type (h2_response_set_status h2_response_init status text)
          (codes "application/json"))
        body (length body))
      c.security_headers none

-- The outcome of `serve_static_h2`: 0, 1 or -1
pub data StaticOutcome : Type 0 where
  answered no_match failed : StaticOutcome

-- The response before the file is read
unfoldable pub file_response : Bytes → Http2Response
file_response type =
    h2_response_set_content_type (h2_response_set_status h2_response_init (pos 200) (codes "OK"))
      type

unfoldable pub static_body :
    Bytes → ServerConfig → Bytes → Option Bytes → StaticOutcome × Http2Response
static_body path c type none = (failed, file_response type)
static_body path c type (some body) = (
  answered,
  h2_response_add_security_headers
      (record (file_response type) { body = body; body_len = length body })
      (get_security_headers_for_request path c) (some (get_cors_config_for_request path c)),
)

unfoldable pub as_served : Bool × Http2Response → StaticOutcome × Http2Response
as_served (true, r) = (answered, r)
as_served (false, r) = (failed, r)

unfoldable pub serve_lookup :
    (Bytes → ℕ → Option Bytes)
    → ServerConfig
    → Bytes
    → StaticLookup
    → Http2Response
    → StaticOutcome × Http2Response
unfolding as_served static_body
serve_lookup read c path no_route r = (no_match, r)
serve_lookup read c path not_found r = as_served (empty_answer r (pos 404) (codes "Not Found"))
serve_lookup read c path forbidden r = as_served (empty_answer r (pos 403) (codes "Forbidden"))
serve_lookup read c path lookup_error r = (failed, r)
serve_lookup read c path (ready file size type) r =
    if ltb buffer_size size
    then as_served (empty_answer r (pos 413) (codes "Payload Too Large"))
    else static_body path c type (read file size)

-- `serve_static_h2`
unfoldable pub serve_static_h2 :
    FileSystem
    → (Bytes → ℕ → Option Bytes)
    → ServerConfig
    → Bytes
    → Http2Response
    → StaticOutcome × Http2Response
unfolding serve_lookup
serve_static_h2 fs read c path r = serve_lookup read c path (lookup_static_file fs c path) r

-- `root_body`
abbrev pub root_body : Bytes
root_body =
    codes
      "<html><head><title>High Performance Web Server</title></head><body><h1>Welcome to High Performance Web Server</h1><p>This server is designed to outperform Nginx and Apache by utilizing advanced I/O techniques, a modular architecture, and an efficient reverse proxy mechanism.</p></body></html>"

-- `proxy_request_http2`, with `forward` for the call that proxies a request on a route
unfoldable pub proxy_request_http2 :
    (Route → Http2Response → Bool × Http2Response)
    → Option Route
    → Http2Response
    → Bool × Http2Response
proxy_request_http2 forward none r = (false, r)
proxy_request_http2 forward (some route) r = forward route r

unfoldable pub or_not_implemented : Bool × Http2Response → Bool × Http2Response
or_not_implemented (true, r) = (true, r)
or_not_implemented (false, r) = empty_answer r (pos 501) (codes "Not Implemented")

unfoldable pub after_static :
    (Route → Http2Response → Bool × Http2Response)
    → ServerConfig
    → Bytes
    → StaticOutcome × Http2Response
    → Bool × Http2Response
unfolding or_not_implemented
after_static forward c path (answered, r) = (true, r)
after_static forward c path (failed, r) = (false, r)
after_static forward c path (no_match, r) =
    if has_matching_proxy_route path c
    then or_not_implemented (proxy_request_http2 forward (find_reverse_proxy_route path c) r)
    else empty_answer r (pos 404) (codes "Not Found")

-- `route_request_tls` with a response of HTTP/2 and a configuration: whether it returns 0, and the response.
unfoldable pub route_request_h2 :
    FileSystem
    → (Bytes → ℕ → Option Bytes)
    → (Route → Http2Response → Bool × Http2Response)
    → Bool
    → ServerConfig
    → Bytes
    → Http2Response
    → Bool × Http2Response
route_request_h2 fs read forward draining c path r =
    if str_eq path (codes "/health")
    then (true, send_health_response draining c)
    else if str_eq path (codes "/")
    then populate_http2_response r root_body (pos 200) (codes "OK") (codes "text/html")
    else after_static forward c path (serve_static_h2 fs read c path r)
