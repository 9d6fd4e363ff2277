-- ===== src/Server/Http2.antt =====
-- An HTTP/2 connection of src/server.c: the callbacks that nghttp2 makes for a stream, and the loop of the
-- connection. What nghttp2, poll and the clock give is an argument; the routing of a request is in Router.
pub mod Pseudo
pub mod Answer
pub mod BodyRead
pub mod Loop
mod Examples
use emme.Prelude.{
  ℕ, ◌+◌, ◌-◌, ◌%◌, ◌^◌, Bool, true, false, not, if◌then◌else◌, ltb, leb, ◌==◌, ◌&&◌, ◌||◌, ℤ, pos,
  negsuc, leb_ℤ, Option, none, some, List, [], ◌∷◌, ◌++◌, Bytes, codes, take, drop, length, str_eq,
  has_prefix, print_decimal, pos_part, neg_part,
}
use emme.Config.Numbers.{is_end}
use emme.Config.Types.{SecurityHeader, Http2Config}
use emme.HttpParser.{HttpRequest}
use emme.Http2Response.{Http2Response}

-- `StreamData`: the request so far, whose method and path may be null, and how much of the response's body was
-- sent
pub record StreamData : Type 0 where
  pub method : Option Bytes
  pub path : Option Bytes
  pub version : Bytes
  pub request_id : Bytes
  pub resp_sent : ℕ

-- The stream's state where there is none yet
unfoldable pub new_stream : Bytes → StreamData
new_stream id = record {
  method = none;
  path = none;
  version = codes "HTTP/2";
  request_id = id;
  resp_sent = 0;
}

-- strncmp(name, pseudo, namelen) == 0 for a name of `namelen` bytes without a NUL: the name starts `pseudo`.
abbrev pub starts_pseudo : Bytes → Bytes → Bool
starts_pseudo name pseudo = has_prefix pseudo name

-- The part of `on_header_callback` behind the stream's state, for a request; the copies of strndup succeed.
unfoldable pub set_pseudo : Bytes → Bytes → StreamData → StreamData
set_pseudo name value d =
    if has_prefix name (codes ":")
    then if starts_pseudo name (codes ":method")
      then record d { method = some value }
      else if starts_pseudo name (codes ":path")
      then record d { path = some value }
      else d
    else d

-- `H2IO`, without the pointers
pub record H2Io : Type 0 where
  pub want_read : Bool
  pub want_write : Bool
  pub total_read : ℕ
  pub request_count : ℕ
  pub request_start : ℕ
  pub request_timeout_ms : ℤ

-- `on_header_callback` for a header of a request: the connection, and the stream with its state, `none` before
-- the first header; `now` is the time in milliseconds, and the allocations succeed.
unfoldable pub on_header :
    Bytes → ℕ → Bytes → Bytes → H2Io × Option StreamData → H2Io × Option StreamData
on_header id now name value (io, stream) = (
  if str_eq name (codes ":method")
      then record io { request_count = io.request_count + 1; request_start = now }
      else io,
  elim stream [
    | none ↦ some (set_pseudo name value (new_stream id))
    | some d ↦ some (set_pseudo name value d)
  ],
)

-- The request that is routed
unfoldable pub request_of_stream : StreamData → HttpRequest
request_of_stream d = record {
  method = elim d.method [ none ↦ [] | some m ↦ m ];
  path = elim d.path [ none ↦ [] | some p ↦ p ];
  version = d.version;
  headers = [];
  request_id = d.request_id;
}

abbrev no_status : ℤ → Bool
no_status (pos n) = n == 0
no_status (negsuc n) = false

abbrev print_ℤ : ℤ → Bytes
print_ℤ (pos n) = print_decimal n
print_ℤ (negsuc n) = codes "-" ++ print_decimal (n + 1)

-- The status of the response behind the routing, which returned 0 or not
unfoldable pub settle_status : Bool × Http2Response → Http2Response
settle_status (routed, r) =
    if no_status r.status_code
    then (if routed then record r { status_code = pos 200 } else record r {
      status_code = pos 500;
      status_text = codes "Internal Server Error";
      content_type = [];
      body = [];
      body_len = 0;
    })
    else r

abbrev nv : Bytes → Bytes → SecurityHeader
nv name value = record { name = name; value = value }

-- The headers that `on_frame_recv_callback` submits, in place of those of the response; the text of the status
-- has room for three digits
unfoldable pub submit_headers : Http2Response → Http2Response
submit_headers r = record r {
  headers =
      nv (codes ":status") (take 3 (print_ℤ r.status_code))
      ∷ nv (codes "content-type")
          (if is_end r.content_type then codes "text/plain" else r.content_type)
      ∷ nv (codes "content-length") (print_decimal r.body_len)
      ∷ [];
}

-- `on_frame_recv_callback` for the HEADERS of a request that end the headers of a stream with a state: the
-- response that is submitted, and the stream; `route` is `route_request_tls`, on a response that is all zero.
unfoldable pub on_request :
    (Option Bytes → Http2Response → Bool × Http2Response)
    → Http2Response
    → StreamData
    → Http2Response × StreamData
unfolding settle_status submit_headers
on_request route zero d =
    (submit_headers (settle_status (route d.path zero)), record d { resp_sent = 0 })

-- `http2_body_read_callback` with room for `len` bytes: those that it gives, whether it flags the end, the stream
unfoldable pub body_read : Http2Response → ℕ → StreamData → Bytes × Bool × StreamData
body_read r len d =
    let remaining = (r.body_len + 2 ^ 64 - d.resp_sent) % 2 ^ 64 in
    let to_copy = if ltb remaining len then remaining else len in
    let sent = if ltb 0 to_copy then (d.resp_sent + to_copy) % 2 ^ 64 else d.resp_sent in
    (take to_copy (drop d.resp_sent r.body), leb r.body_len sent, record d { resp_sent = sent })

-- What nghttp2_session_recv or nghttp2_session_send returns
pub data Transfer : Type 0 where
  done would_block end_of_file broken : Transfer

abbrev pub transfer_done : Transfer → Bool
transfer_done done = true
transfer_done would_block = false
transfer_done end_of_file = false
transfer_done broken = false

-- One round of the loop of `handle_http2_connection`: what the session wants, the time in seconds and in
-- milliseconds, what poll says of the events that it is asked for (`none` an error, otherwise whether it hung
-- up, can be read, can be written; nothing of it on a timeout), the results of the session's receive and send,
-- and what their callbacks make of the connection
pub record H2Round : Type 0 where
  pub session_wants : Bool
  pub now : ℕ
  pub now_ms : ℕ
  pub polled : Option (Bool × Bool × Bool)
  pub received : Transfer
  pub sent : Transfer
  pub after_recv : H2Io → H2Io
  pub after_send : H2Io → H2Io

-- Why a connection ends
pub data Ending : Type 0 where
  finished idle too_many timed_out poll_error hangup recv_ended send_failed : Ending

-- now - since > limit
abbrev pub exceeds : ℕ → ℕ → ℤ → Bool
exceeds now since limit = not (leb (now + neg_part limit) (pos_part limit + since))

-- The last part of a round, behind poll: the connection and the time of the last activity, and an ending
unfoldable pub send_part : H2Round → Bool → H2Io × ℕ → (H2Io × ℕ) × Option Ending
send_part r writable (io, last) =
    if writable
    then (
      (r.after_send io, if transfer_done r.sent then r.now else last),
      elim r.sent [
        | done ↦ none
        | would_block ↦ none
        | end_of_file ↦ some send_failed
        | broken ↦ some send_failed
      ],
    )
    else ((io, last), none)

unfoldable pub transfer_part : H2Round → Bool → Bool → H2Io × ℕ → (H2Io × ℕ) × Option Ending
transfer_part r readable writable (io, last) =
    if readable
    then elim r.received [
      | done ↦ send_part r writable (r.after_recv io, r.now)
      | would_block ↦ send_part r writable (r.after_recv io, last)
      | end_of_file ↦ ((r.after_recv io, last), some recv_ended)
      | broken ↦ ((r.after_recv io, last), some recv_ended)
    ]
    else send_part r writable (io, last)

-- The body of the loop, with the configuration's idle time and number of requests
unfoldable pub h2_round : Http2Config → H2Round → H2Io × ℕ → (H2Io × ℕ) × Option Ending
h2_round c r (io, last) =
    if not r.session_wants
    then ((io, last), some finished)
    else if exceeds r.now last c.keepalive_timeout
    then ((io, last), some idle)
    else if leb_ℤ c.max_requests_per_connection (pos io.request_count)
    then ((io, last), some too_many)
    else if ltb 0 io.request_count && exceeds r.now_ms io.request_start io.request_timeout_ms
    then ((io, last), some timed_out)
    else elim r.polled [
      | none ↦ ((io, last), some poll_error)
      | some (hung_up, readable, writable) ↦
          if hung_up
          then ((io, last), some hangup)
          else transfer_part r readable writable (io, last)
    ]

-- The loop on the rounds that it makes: the connection after, and the ending, `none` while it goes on
unfoldable pub h2_loop : Http2Config → List H2Round → H2Io × ℕ → H2Io × Option Ending
h2_loop c [] (io, last) = (io, none)
h2_loop c (r ∷ rs) (io, last) =
    let (next, ending) = h2_round c r (io, last) in
    let rest = h2_loop c rs next in elim ending [ none ↦ rest | some e ↦ (next.0, some e) ]
