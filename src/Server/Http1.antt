-- ===== src/Server/Http1.antt =====
-- An HTTP/1.1 connection of src/server.c, from the read of a request's head to the close. What SSL_read gives and
-- the time since the start of a request are arguments; the routing of a request is in Router.
pub mod HeaderEnd
pub mod Reads
pub mod Decided
pub mod Refused
pub mod Pipelined
mod Examples
use emme.Prelude.{
  ℕ, zero, suc, ◌+◌, ◌-◌, Bool, true, false, not, if◌then◌else◌, ltb, leb, ◌&&◌, ◌||◌, is_none, ℤ,
  pos, leb_ℤ, Option, none, some, List, [], ◌∷◌, ◌++◌, Bytes, codes, take, length, has_prefix,
}
use emme.Config.Types.{ServerConfig, SecurityHeader, SecurityHeadersConfig}
use emme.Http2Response.{buffer_size}
use emme.HttpParser.{HttpRequest, parse_http_request, parsed_buffer}
use emme.Router.Header.{crlf, header_text}

-- The loop of `find_header_end` from index `i` on
unfoldable pub header_end_from : ℕ → Bytes → Option ℕ
header_end_from i [] = none
header_end_from i (c ∷ s) =
    let rest = header_end_from (i + 1) s in
    if has_prefix (c ∷ s) (crlf ++ crlf) then some (i + 4) else rest

-- `find_header_end`; `none` is -1. Four bytes match only where there are four.
unfoldable pub find_header_end : Bytes → Option ℕ
find_header_end s = header_end_from 0 s

-- SERVER_SECURITY_HEADERS_BUFFER_SIZE
abbrev pub response_buffer_size : ℕ
response_buffer_size = 512

-- The loop of `add_global_security_headers` behind a text of its buffer
unfoldable pub append_global : List SecurityHeader → Bytes → Bytes
append_global [] text = text
append_global (h ∷ hs) text =
    let remaining = response_buffer_size - length text in
    let line = header_text h.name h.value in
    let more = append_global hs (text ++ line) in
    if ltb 20 remaining && ltb (length line) remaining then more else text

-- `add_global_security_headers`
unfoldable pub add_global_security_headers : Bytes → SecurityHeadersConfig → Bytes
add_global_security_headers text config =
    if not config.enabled || leb response_buffer_size (length text)
    then text
    else append_global config.headers text

-- The answer to a request that is not served: what SSL_write gets, if anything
unfoldable pub refuse : Bytes → SecurityHeadersConfig → Option Bytes
refuse head config =
    let text = add_global_security_headers head config in
    if ltb (length text + 2) response_buffer_size then some (text ++ crlf) else none

abbrev pub timeout_head : Bytes
timeout_head = codes "HTTP/1.1 408 Request Timeout\r\nContent-Length: 0\r\nRetry-After: 5\r\n"

abbrev pub too_large_head : Bytes
too_large_head = codes "HTTP/1.1 431 Request Header Fields Too Large\r\nContent-Length: 0\r\n"

abbrev pub bad_request_head : Bytes
bad_request_head = codes "HTTP/1.1 400 Bad Request\r\nContent-Length: 0\r\n"

-- One SSL_read: the bytes that it could give, `none` for a result of 0 or less, and the milliseconds since the
-- start of the request behind it. It gives no more than there is room for.
pub record Read : Type 0 where
  pub bytes : Option Bytes
  pub elapsed_ms : ℕ

-- How the reads of a request end
pub data Head : Type 0 where
  gone late too_large : Head
  complete : Bytes → Head

-- The loop that reads up to the end of the header, with `total` read so far: `none` while it goes on
unfoldable pub read_head : ℤ → Bytes → List Read → Option Head
read_head timeout_ms total [] =
    if ltb (length total) (buffer_size - 1) then none else some too_large
read_head timeout_ms total (r ∷ rs) = elim r.bytes [
  | none ↦ if ltb (length total) (buffer_size - 1) then some gone else some too_large
  | some b ↦
      (let total' = total ++ take (buffer_size - 1 - length total) b in
        let rest = read_head timeout_ms total' rs in
        if not (ltb (length total) (buffer_size - 1))
        then some too_large
        else if not (leb_ℤ (pos r.elapsed_ms) timeout_ms)
        then some late
        else if is_none (find_header_end total')
        then rest
        else some (complete total'))
]

-- What becomes of a request: routed with its buffer as the parser leaves it, refused with an answer, or the client has gone
pub data HttpReply : Type 0 where
  routed : HttpRequest → Bytes → HttpReply
  refused : Option Bytes → HttpReply
  hung_up : HttpReply

unfoldable pub reply_to : ServerConfig → Bytes → Head → HttpReply
reply_to c id gone = hung_up
reply_to c id late = refused (refuse timeout_head c.security_headers)
reply_to c id too_large = refused (refuse too_large_head c.security_headers)
reply_to c id (complete buffer) = elim (parse_http_request id buffer) [
  | none ↦ refused (refuse bad_request_head c.security_headers)
  | some q ↦ routed q (parsed_buffer buffer)
]

-- The requests of a connection: the identifier that generate_uuid gives, and the reads
pub record HttpTurn : Type 0 where
  pub request_id : Bytes
  pub reads : List Read

-- `handle_http1_connection`: the replies in order, and whether it has come to `shutdown_and_close`. Each
-- request starts with an empty buffer.
unfoldable pub handle_http1_connection : ServerConfig → List HttpTurn → List HttpReply × Bool
handle_http1_connection c [] = ([], false)
handle_http1_connection c (t ∷ ts) =
    let (replies, closed) = handle_http1_connection c ts in
    elim (read_head c.request_timeout_ms [] t.reads) [
      | none ↦ ([], false)
      | some head ↦ elim (reply_to c t.request_id head) [
        | routed q buffer ↦ (routed q buffer ∷ replies, closed)
        | refused answer ↦ (refused answer ∷ [], true)
        | hung_up ↦ (hung_up ∷ [], true)
      ]
    ]
