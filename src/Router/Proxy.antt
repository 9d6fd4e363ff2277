-- ===== src/Router/Proxy.antt =====
-- `proxy_to_backend_pooled` of src/router.c: a request through the circuit breaker and a connection of the
-- pool. What the HTTP/2 client returns is an argument; `now` is the time before the exchange, `later` after.
use emme.Prelude.{
  ℕ, Bool, false, not, if◌then◌else◌, ◌&&◌, ℤ, pos, leb_ℤ, Option, none, some, Bytes, codes,
}
use emme.Config.Types.{Route, SecurityHeadersConfig, CorsConfig}
use emme.Http2Response.{
  Http2Response, h2_response_init, h2_response_set_status, h2_response_set_content_type,
  h2_response_set_body, h2_response_add_security_headers,
}
use emme.BackendPool.Breaker.{Breaker, allow_request, record_success, record_failure}
use emme.BackendPool.Connections.{
  Pool, backend_pool_acquire, backend_pool_release, mark, mark_success, mark_failure,
}

-- What a pool of C holds: its connections and its breaker
pub record Backend : Type 0 where
  pub breaker : Breaker
  pub pool : Pool

-- The results of http2_client_send_request and http2_client_recv_response, and the body received
pub record Exchange : Type 0 where
  pub sent : ℤ
  pub status : ℤ
  pub body : Bytes
  pub body_len : ℕ

-- `set_h2_response`
unfoldable pub set_h2_response : ℤ → Bytes → ℕ → SecurityHeadersConfig → CorsConfig → Http2Response
set_h2_response status body body_len security cors =
    h2_response_add_security_headers
      (h2_response_set_body
        (h2_response_set_content_type (h2_response_set_status h2_response_init status (codes "OK"))
          (codes "application/json"))
        body body_len)
      security (some cors)

-- CIRCUIT_BREAKER_ERROR_BODY, CIRCUIT_BREAKER_ERROR_LEN
abbrev pub circuit_breaker_error_body : Bytes
circuit_breaker_error_body = codes "{\"error\":\"Service temporarily unavailable\"}"

abbrev pub circuit_breaker_error_len : ℕ
circuit_breaker_error_len = 38

-- `status >= 0` of the request, then `status > 0` of the response
abbrev pub is_answered : Exchange → Bool
is_answered e = leb_ℤ (pos 0) e.sent && not (leb_ℤ e.status (pos 0))

-- The marks and the release with which every branch behind the acquisition ends
unfoldable pub settle : Bool → Backend → ℕ → ℕ → Backend
settle answered b i later = record {
  breaker = if answered then record_success b.breaker later else record_failure b.breaker later;
  pool =
      backend_pool_release (mark (if answered then mark_success else mark_failure) b.pool i) i
        later;
}

-- The part behind the breaker
unfoldable pub forward_on :
    Option ℕ → Route → Http2Response → Backend → ℕ → Exchange → Bool × Http2Response × Backend
forward_on none route resp b later e =
    (false, resp, record b { breaker = record_failure b.breaker later })
forward_on (some i) route resp b later e = (
  is_answered e,
  if is_answered e
      then set_h2_response e.status e.body e.body_len route.security_headers route.cors
      else resp,
  settle (is_answered e) b i later,
)

-- `proxy_to_backend_pooled`: whether it returns 0, the response and the backend after.
unfoldable pub proxy_to_backend_pooled :
    Route → Http2Response → Backend → ℕ → ℕ → (ℕ → Bool) → Exchange → Bool × Http2Response × Backend
proxy_to_backend_pooled route resp b now later reopened e =
    let (allowed, breaker) = allow_request b.breaker now in
    let (conn, pool) = backend_pool_acquire b.pool now reopened in
    if allowed
    then forward_on conn route resp (record { breaker = breaker; pool = pool }) later e
    else (
      false,
      set_h2_response (pos 503) circuit_breaker_error_body circuit_breaker_error_len
          route.security_headers route.cors,
      record b { breaker = breaker },
    )
