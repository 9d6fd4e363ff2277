-- ===== src/Router/Header.antt =====
-- The header of an HTTP/1.1 response in src/router.c. A buffer is the text in it and `reach`, the number of
-- its bytes up to the last one that was written.
use emme.Prelude.{
  ℕ, ◌+◌, ◌-◌, Bool, not, if◌then◌else◌, ltb, leb, ◌&&◌, ◌||◌, pos, pos_part, leb_ℤ, Option, none,
  some, List, [], ◌∷◌, ◌++◌, Bytes, codes, length, print_decimal,
}
use emme.Config.Numbers.{is_end}
use emme.Config.Types.{ServerConfig, SecurityHeader, SecurityHeadersConfig, CorsConfig}
use emme.Router.Choice.{get_security_headers_for_request, get_cors_config_for_request}

pub record HeaderBuffer : Type 0 where
  pub content : Bytes
  pub reach : ℕ

-- SECURITY_HEADERS_BUFFER_SIZE, HEADER_BUFFER_SIZE
abbrev pub security_headers_buffer_size : ℕ
security_headers_buffer_size = 1024

abbrev pub header_buffer_size : ℕ
header_buffer_size = 256

abbrev pub crlf : Bytes
crlf = 13 ∷ 10 ∷ []

abbrev pub remaining : HeaderBuffer → ℕ
remaining b = security_headers_buffer_size - length b.content

abbrev pub larger : ℕ → ℕ → ℕ
larger a b = if ltb a b then b else a

-- snprintf behind the text, and the test of its result: a line that does not fit is cut and not counted.
unfoldable pub append_line : HeaderBuffer → Bytes → HeaderBuffer
append_line b line =
    if ltb (length line) (remaining b)
    then record {
      content = b.content ++ line;
      reach = larger b.reach (length b.content + length line + 1);
    }
    else record b { reach = larger b.reach security_headers_buffer_size }

-- `"%s: %s\r\n"`
abbrev pub header_text : Bytes → Bytes → Bytes
header_text name value = name ++ (b':' ∷ b' ' ∷ value ++ crlf)

-- The loop of `add_security_headers_to_buffer`
unfoldable pub append_headers : List SecurityHeader → HeaderBuffer → HeaderBuffer
append_headers [] b = b
append_headers (h ∷ hs) b =
    let line = header_text h.name h.value in
    let more = append_headers hs (append_line b line) in
    if ltb 20 (remaining b)
    then (if ltb (length line) (remaining b) then more else append_line b line)
    else b

-- `add_security_headers_to_buffer`, without the metric
unfoldable pub add_security_headers_to_buffer : HeaderBuffer → SecurityHeadersConfig → HeaderBuffer
add_security_headers_to_buffer b config =
    if not config.enabled || leb security_headers_buffer_size (length b.content)
    then b
    else append_headers config.headers b

-- `if (wanted && remaining > room)`
unfoldable pub append_if : Bool → ℕ → Bytes → HeaderBuffer → HeaderBuffer
append_if wanted room line b = if wanted && ltb room (remaining b) then append_line b line else b

-- `add_cors_headers_to_buffer`, without the metric. The first test has no room to ask for: there is some.
unfoldable pub add_cors_headers_to_buffer : HeaderBuffer → CorsConfig → HeaderBuffer
add_cors_headers_to_buffer b cors =
    if not cors.enabled || leb security_headers_buffer_size (length b.content)
    then b
    else append_if (not (leb_ℤ cors.max_age_seconds (pos 0))) 30
        (header_text (codes "Access-Control-Max-Age")
          (print_decimal (pos_part cors.max_age_seconds)))
        (append_if cors.allow_credentials 40
          (header_text (codes "Access-Control-Allow-Credentials") (codes "true"))
          (append_if (not (is_end cors.allow_headers)) 30
            (header_text (codes "Access-Control-Allow-Headers") cors.allow_headers)
            (append_if (not (is_end cors.allow_methods)) 30
              (header_text (codes "Access-Control-Allow-Methods") cors.allow_methods)
              (append_if (not (is_end cors.allow_origin)) 0
                (header_text (codes "Access-Control-Allow-Origin") cors.allow_origin) b))))

-- What `send_simple_response_with_config` hands to SSL_write, `none` for -1, and the reach into the buffer
-- of HEADER_BUFFER_SIZE bytes.
pub record Sent : Type 0 where
  pub text : Option Bytes
  pub reach : ℕ

unfoldable pub finish_header : HeaderBuffer → Bytes → Sent
finish_header b body =
    if leb header_buffer_size (length b.content + 2)
    then record { text = none; reach = b.reach }
    else record {
      text = some (b.content ++ (crlf ++ body));
      reach = larger b.reach (length b.content + 3);
    }

-- `"%s\r\n%sContent-Length: %zu\r\n"`
abbrev pub status_head : Bytes → Bytes → Bytes → Bytes
status_head status_line content_type body =
    status_line
    ++ (crlf
        ++ (content_type ++ header_text (codes "Content-Length") (print_decimal (length body))))

-- `send_simple_response_with_config`, where SSL_write takes everything; an absent content type or body is
-- the empty text.
unfoldable pub send_simple_response_with_config :
    Bytes → Bytes → Bytes → Bytes → ServerConfig → Sent
send_simple_response_with_config status_line content_type body path c =
    let head = status_head status_line content_type body in
    if leb header_buffer_size (length head)
    then record { text = none; reach = header_buffer_size }
    else finish_header
        (add_cors_headers_to_buffer
          (add_security_headers_to_buffer (record { content = head; reach = length head + 1 })
            (get_security_headers_for_request path c))
          (get_cors_config_for_request path c))
        body
