-- ===== src/Http2Response.antt =====
-- include/http2_response.h and src/http2_response.c: the response that an HTTP/2 stream sends.
pub mod Room
use emme.Prelude.{
  ℕ, ◌+◌, ◌-◌, Bool, true, false, not, if◌then◌else◌, ltb, leb, ◌&&◌, ℤ, pos, pos_part, neg_part,
  leb_ℤ, Option, none, some, List, [], ◌∷◌, ◌++◌, Bytes, codes, length, take, print_decimal,
}
use emme.Config.Numbers.{is_end}
use emme.Config.Types.{SecurityHeader, SecurityHeadersConfig, CorsConfig}

-- `Http2Response`; `num_headers` is the length of `headers`, `body_len` is a field of its own in C.
pub record Http2Response : Type 0 where
  pub headers : List SecurityHeader
  pub body : Bytes
  pub body_len : ℕ
  pub status_code : ℤ
  pub status_text : Bytes
  pub content_type : Bytes

-- BUFFER_SIZE and the size of the array `headers`
abbrev pub buffer_size : ℕ
buffer_size = 32768

abbrev pub max_response_headers : ℕ
max_response_headers = 16

-- `h2_response_init`
unfoldable pub h2_response_init : Http2Response
h2_response_init = record {
  headers = [];
  body = [];
  body_len = 0;
  status_code = pos 200;
  status_text = codes "OK";
  content_type = codes "text/html";
}

-- `h2_response_set_status`
unfoldable pub h2_response_set_status : Http2Response → ℤ → Bytes → Http2Response
h2_response_set_status r status text = record r { status_code = status; status_text = take 31 text }

-- `h2_response_add_header`
unfoldable pub h2_response_add_header : Http2Response → Bytes → Bytes → Http2Response
h2_response_add_header r name value =
    if leb max_response_headers (length r.headers)
    then r
    else record r { headers = r.headers ++ (record { name = name; value = value } ∷ []) }

-- `h2_response_set_body`
unfoldable pub h2_response_set_body : Http2Response → Bytes → ℕ → Http2Response
h2_response_set_body r text len =
    let kept = if leb buffer_size len then buffer_size - 1 else len in
    record r { body = take kept text; body_len = kept }

-- `h2_response_set_content_type`
unfoldable pub h2_response_set_content_type : Http2Response → Bytes → Http2Response
h2_response_set_content_type r type = record r { content_type = take 63 type }

-- The loop over the security headers
unfoldable pub add_security_headers : List SecurityHeader → Http2Response → Http2Response
add_security_headers [] r = r
add_security_headers (h ∷ hs) r =
    let more = add_security_headers hs (h2_response_add_header r h.name h.value) in
    if ltb (length r.headers) max_response_headers then more else r

-- `if (wanted && resp->num_headers < 16)`
unfoldable pub add_if : Bool → Bytes → Bytes → Http2Response → Http2Response
add_if wanted name value r =
    if wanted && ltb (length r.headers) max_response_headers
    then h2_response_add_header r name value
    else r

-- The branch of an enabled CORS configuration. The last value is a local buffer in C, which is out of its
-- scope when the headers are sent; here it is the text that was written there.
unfoldable pub add_cors_headers : CorsConfig → Http2Response → Http2Response
unfolding add_if
add_cors_headers cors r =
    add_if (not (leb_ℤ cors.max_age_seconds (pos 0))) (codes "Access-Control-Max-Age")
      (print_decimal (pos_part cors.max_age_seconds))
      (add_if cors.allow_credentials (codes "Access-Control-Allow-Credentials") (codes "true") (
        add_if (not (is_end cors.allow_headers)) (codes "Access-Control-Allow-Headers")
          cors.allow_headers
          (add_if (not (is_end cors.allow_methods)) (codes "Access-Control-Allow-Methods")
            cors.allow_methods
            (add_if (not (is_end cors.allow_origin)) (codes "Access-Control-Allow-Origin")
              cors.allow_origin r))))

unfoldable pub with_cors : Option CorsConfig → Http2Response → Http2Response
with_cors none r = r
with_cors (some cors) r = if cors.enabled then add_cors_headers cors r else r

-- `h2_response_add_security_headers`, with `none` for a null CORS configuration
unfoldable pub h2_response_add_security_headers :
    Http2Response → SecurityHeadersConfig → Option CorsConfig → Http2Response
unfolding with_cors
h2_response_add_security_headers r config cors =
    if config.enabled then with_cors cors (add_security_headers config.headers r) else r
