-- ===== src/Router/Answers.antt =====
-- What `route_request_tls` of src/router.c answers on an HTTP/2 stream.
use emme.Prelude.{
  ℕ, ◌≤◌, ◌≡◌, refl, Bool, true, false, not, if◌then◌else◌, ltb, ◌&&◌, ℤ, pos, Option, none, some,
  List, [], ◌∷◌, Bytes, codes, str_eq, length, arith, is_none, Option-cases, Bool-cases, inl, inr,
}
use emme.Config.Types.{ServerConfig, Route}
use emme.Http2Response.{
  Http2Response, buffer_size, h2_response_init, h2_response_set_status,
  h2_response_set_content_type,
}
use emme.Http2Response.Room.{h2_response_add_security_headers-Grown}
use emme.Router.Choice.{
  find_route, find_reverse_proxy_route, has_matching_proxy_route, any_proxy, matches, is_technology,
  get_security_headers_for_request, get_cors_config_for_request,
}
use emme.Router.Files.{
  FileSystem, StaticLookup, lookup_error, no_route, not_found, forbidden, ready, lookup_static_file,
}
use emme.Router.Dispatch.{
  populate_http2_response, empty_answer, no_match, serve_static_h2, serve_lookup, file_response,
  static_body, as_served, proxy_request_http2, or_not_implemented, after_static, route_request_h2,
}

-- The two searches for a proxy route agree.
any_proxy-found :
    (rs : List Route) (path : Bytes)
    → any_proxy rs path ≡ not (is_none (find_route (codes "reverse_proxy") rs path))
unfolding any_proxy find_route
any_proxy-found [] path = refl
any_proxy-found (r ∷ rs) path =
    elim (Bool-cases (is_technology (codes "reverse_proxy") r && matches path r)) [
      | inl e ↦ ground (arith, e)
      | inr e ↦ ground (arith, e, any_proxy-found rs path)
    ]

-- The status by what the search for a file gives and, without a static route, by what proxying gives
abbrev pub expected_status : StaticLookup → Option ℤ → ℤ
expected_status not_found proxied = pos 404
expected_status forbidden proxied = pos 403
expected_status (ready file size type) proxied = if ltb 32768 size then pos 413 else pos 200
expected_status no_route (some status) = status
expected_status no_route none = pos 404
expected_status lookup_error proxied = pos 500

-- What proxying brings: nothing without a proxy route, the backend's status where `forward` succeeds, and
-- 501 where it fails.
abbrev pub proxied_by : Bool × Http2Response → ℤ
proxied_by (ok, r) = if ok then r.status_code else pos 501

abbrev pub proxied_on :
    (Route → Http2Response → Bool × Http2Response) → Http2Response → Option Route → Option ℤ
proxied_on forward r none = none
proxied_on forward r (some route) = some (proxied_by (forward route r))

no_headers_yet : (type : Bytes) → length (file_response type).headers ≤ 16
unfolding file_response h2_response_set_content_type h2_response_set_status h2_response_init
no_headers_yet type = omega arith

module _ (fs : FileSystem) (read : Bytes → ℕ → Option Bytes)
    (forward : Route → Http2Response → Bool × Http2Response) (draining : Bool) (c : ServerConfig)
    (path : Bytes) (r : Http2Response) where
  file-status :
      (type : Bytes) (body : Option Bytes)
      → (after_static forward c path (static_body path c type body)).0 ≡ true
      → (after_static forward c path (static_body path c type body)).1.status_code ≡ pos 200
  unfolding after_static static_body file_response h2_response_set_content_type
      h2_response_set_status
  file-status type none ok = ground (arith, ok)
  file-status type (some body) ok =
      (h2_response_add_security_headers-Grown
        (record (file_response type) { body = body; body_len = length body })
        (get_security_headers_for_request path c) (some (get_cors_config_for_request path c))
        (no_headers_yet type)).rest.2

  sized-status :
      (file type : Bytes) (size : ℕ) (body : Option Bytes)
      → let served =
          if ltb buffer_size size
          then as_served (empty_answer r (pos 413) (codes "Payload Too Large"))
          else static_body path c type body in
        (after_static forward c path served).0 ≡ true
        → (after_static forward c path served).1.status_code
          ≡ (if ltb 32768 size then pos 413 else pos 200)
  unfolding after_static populate_http2_response as_served
  sized-status file type size body ok = elim (Bool-cases (ltb buffer_size size)) [
    | inl big ↦ ground (arith, big, ok)
    | inr small ↦ ground (arith, small, ok, file-status type body)
  ]

  unrouted-status :
      (after_static forward c path (no_match, r)).0 ≡ true
      → (after_static forward c path (no_match, r)).1.status_code
        ≡ expected_status no_route (proxied_on forward r (find_reverse_proxy_route path c))
  unfolding after_static populate_http2_response or_not_implemented proxy_request_http2
      has_matching_proxy_route find_reverse_proxy_route
  unrouted-status ok = elim (Option-cases (find_route (codes "reverse_proxy") c.routes path)) [
    | inl n ↦ ground (arith, any_proxy-found c.routes path, n, ok)
    | inr (route, f) ↦ ground (arith, any_proxy-found c.routes path, f, ok)
  ]

  serve_lookup-status :
      (l : StaticLookup)
      → (after_static forward c path (serve_lookup read c path l r)).0 ≡ true
      → (after_static forward c path (serve_lookup read c path l r)).1.status_code
        ≡ expected_status l (proxied_on forward r (find_reverse_proxy_route path c))
  unfolding serve_lookup after_static populate_http2_response as_served
  serve_lookup-status not_found = λ ok. refl
  serve_lookup-status forbidden = λ ok. refl
  serve_lookup-status lookup_error = λ ok. ground (arith, ok)
  serve_lookup-status no_route = λ ok. unrouted-status ok
  serve_lookup-status (ready file size type) = λ ok. sized-status file type size (read file size) ok

  -- A request for another path than /health and / that is answered is answered with the status of the
  -- first static route that matches it: 200 for a file, 413 for one above 32768 bytes, 404 or 403; without
  -- such a route with the status of the backend or, if proxying fails, 501; without any route with 404.
  pub route_request_h2-status :
      str_eq path (codes "/health") ≡ false
      → str_eq path (codes "/") ≡ false
      → (route_request_h2 fs read forward draining c path r).0 ≡ true
      → (route_request_h2 fs read forward draining c path r).1.status_code
        ≡ expected_status
            (lookup_static_file fs c path)
            (proxied_on forward r (find_reverse_proxy_route path c))
  unfolding route_request_h2 serve_static_h2
  route_request_h2-status not_health not_root ok =
      ground (arith, serve_lookup-status (lookup_static_file fs c path))

  -- A response that `forward` has prepared is thrown away where it fails, also the 503 of an open breaker:
  -- the answer is 501.
  pub route_request_h2-hides :
      (route : Route) (r' : Http2Response)
      → str_eq path (codes "/health") ≡ false
      → str_eq path (codes "/") ≡ false
      → lookup_static_file fs c path ≡ no_route
      → find_reverse_proxy_route path c ≡ some route
      → forward route r ≡ (false, r')
      → route_request_h2 fs read forward draining c path r
        ≡ empty_answer r' (pos 501) (codes "Not Implemented")
  unfolding route_request_h2 serve_static_h2 serve_lookup after_static or_not_implemented
      proxy_request_http2 has_matching_proxy_route find_reverse_proxy_route
  route_request_h2-hides route r' not_health not_root none' found refused =
      ground (arith, any_proxy-found c.routes path, none', found, refused)
