-- ===== src/Http2Client/Client.antt =====
-- The state of the client of src/http2_client.c, the callbacks that it gives to nghttp2, and its getters.
use emme.Prelude.{
  ℕ, ◌+◌, ◌-◌, ◌%◌, ◌^◌, Bool, true, false, not, if◌then◌else◌, ltb, leb, ◌==◌, ◌||◌, ℤ, pos,
  negsuc, Option, none, some, ◌++◌, Bytes, take, drop, length,
}

-- What a pointer of the client owns: nothing (a null pointer), a live object, or one that was freed while the
-- pointer stayed
pub data Resource : Type 0 where
  absent live released : Resource

abbrev pub is_live : Resource → Bool
is_live absent = false
is_live live = true
is_live released = false

-- `http2_client_t`, without the fields that nothing sets. The socket is a descriptor, live while it is open
-- and absent where it is -1. `response_buffer` is what was written to it.
pub record Client : Type 0 where
  pub ssl : Resource
  pub socket : Resource
  pub session : Resource
  pub callbacks : Resource
  pub method : Bytes
  pub path : Bytes
  pub host : Bytes
  pub request_body : Bytes
  pub request_body_len : ℕ
  pub body_sent : ℕ
  pub response_buffer : Bytes
  pub response_received : ℕ
  pub response_status : ℤ
  pub want_read : Bool
  pub want_write : Bool
  pub done : Bool
  pub error_code : ℕ

-- HTTP2_CLIENT_BUFFER_SIZE
abbrev pub client_buffer_size : ℕ
client_buffer_size = 65536

-- What SSL_read or SSL_write does: it moves bytes, or fails with what SSL_get_error then says.
pub data SslResult : Type 0 where
  moved : ℕ → SslResult
  ssl_want_read ssl_want_write ssl_zero_return ssl_failed : SslResult

-- What the callbacks tell nghttp2: a count, WOULDBLOCK, EOF or CALLBACK_FAILURE
pub data IoReply : Type 0 where
  count : ℕ → IoReply
  would_block end_of_file callback_failure : IoReply

-- `http2_client_send_callback`
unfoldable pub send_callback : SslResult → Client → IoReply × Client
send_callback (moved n) c = (count n, c)
send_callback ssl_want_read c = (would_block, record c { want_read = true })
send_callback ssl_want_write c = (would_block, record c { want_write = true })
send_callback ssl_zero_return c = (callback_failure, c)
send_callback ssl_failed c = (callback_failure, c)

-- `http2_client_recv_callback`
unfoldable pub recv_callback : SslResult → Client → IoReply × Client
recv_callback (moved n) c = (count n, c)
recv_callback ssl_want_read c = (would_block, record c { want_read = true })
recv_callback ssl_want_write c = (would_block, record c { want_write = true })
recv_callback ssl_zero_return c = (end_of_file, c)
recv_callback ssl_failed c = (callback_failure, c)

-- `nghttp2_headers_category` with its numbers
pub data Category : Type 0 where
  cat_request cat_response cat_push_response cat_headers : Category

abbrev pub category_number : Category → ℕ
category_number cat_request = 0
category_number cat_response = 1
category_number cat_push_response = 2
category_number cat_headers = 3

-- A frame that was received: HEADERS with its END_HEADERS flag and category, or another one
pub data Frame : Type 0 where
  headers_frame : Bool → Category → Frame
  other_frame : Frame

-- `http2_client_on_frame_recv`
unfoldable pub on_frame_recv : Frame → Client → Client
on_frame_recv (headers_frame end_headers cat) c =
    if end_headers then record c { response_status = pos (category_number cat) } else c
on_frame_recv other_frame c = c

-- `http2_client_on_data_chunk_recv`: whether it returns 0
unfoldable pub on_data_chunk_recv : Bytes → Client → Bool × Client
on_data_chunk_recv chunk c =
    let received = (c.response_received + length chunk) % 2 ^ 64 in
    if leb received client_buffer_size
    then (
      true,
      record c {
        response_buffer = take c.response_received c.response_buffer ++ chunk;
        response_received = received;
      },
    )
    else (false, c)

-- `http2_client_on_stream_close`
unfoldable pub on_stream_close : ℕ → Client → Client
on_stream_close code c = record c { done = true; error_code = code }

-- `http2_client_data_read` with room for `len` bytes: those that it gives, whether it flags the end of the
-- body, and the client after
unfoldable pub data_read : ℕ → Client → Bytes × Bool × Client
data_read len c =
    let remaining = (c.request_body_len + 2 ^ 64 - c.body_sent) % 2 ^ 64 in
    let to_send = if ltb remaining len then remaining else len in
    (
      take to_send (drop c.body_sent c.request_body),
      leb remaining len,
      if ltb 0 to_send then record c { body_sent = (c.body_sent + to_send) % 2 ^ 64 } else c,
    )

-- The getters; a null client is `none`.
unfoldable pub get_response_length : Option Client → ℕ
get_response_length none = 0
get_response_length (some c) = c.response_received

unfoldable pub get_response_status : Option Client → ℤ
get_response_status none = pos 0
get_response_status (some c) = c.response_status

unfoldable pub is_done : Option Client → Bool
is_done none = true
is_done (some c) = c.done

abbrev is_zero_status : ℤ → Bool
is_zero_status (pos n) = n == 0
is_zero_status (negsuc n) = false

unfoldable pub has_error : Option Client → Bool
has_error none = true
has_error (some c) = not (c.error_code == 0) || is_zero_status c.response_status
