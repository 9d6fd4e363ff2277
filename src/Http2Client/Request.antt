-- ===== src/Http2Client/Request.antt =====
-- A request of the client of src/http2_client.c and the loop that waits for its response.
use emme.Prelude.{
  ℕ, Bool, false, not, if◌then◌else◌, ltb, ◌&&◌, ◌||◌, ℤ, pos, negsuc, Option, none, some, List, [],
  ◌∷◌, Bytes, codes,
}
use emme.Config.Types.{SecurityHeader}
use emme.Http2Client.Client.{
  Client, is_live, Frame, on_frame_recv, on_data_chunk_recv, on_stream_close,
}

-- What is asked of the client; a null body is `none`.
pub record Asked : Type 0 where
  pub method : Bytes
  pub path : Bytes
  pub host : Bytes
  pub body : Option Bytes
  pub body_len : ℕ

abbrev pub body_of : Option Bytes → Bytes
body_of none = []
body_of (some b) = b

abbrev has_body : Asked → Bool
has_body a = elim a.body [ none ↦ false | some b ↦ ltb 0 a.body_len ]

abbrev header_of : Bytes → Bytes → SecurityHeader
header_of name value = record { name = name; value = value }

-- The headers of the request; a `SecurityHeader` is a name and a value.
unfoldable pub request_headers : Asked → List SecurityHeader
request_headers a =
    header_of (codes ":method") a.method
    ∷ header_of (codes ":path") a.path
    ∷ header_of (codes ":authority") a.host
    ∷ header_of (codes ":scheme") (codes "https")
    ∷ header_of (codes "user-agent") (codes "emme-http2-client/1.0")
    ∷ (if has_body a then header_of (codes "content-type") (codes "application/json") ∷ [] else [])

-- The fields of the request
unfoldable pub set_request : Asked → Client → Client
set_request a c = record c {
  method = a.method;
  path = a.path;
  host = a.host;
  request_body = body_of a.body;
  request_body_len = a.body_len;
  body_sent = 0;
}

-- `http2_client_send_request` on arguments that are not null; the stream is what nghttp2_submit_request
-- returns for the headers, and `sent` whether nghttp2_session_send returns 0, whose callbacks
-- `send_callback` and `data_read` are in their own definitions.
unfoldable pub send_request : ℤ → Bool → Asked → Client → ℤ × Client
send_request stream sent a c = if not (is_live c.session) then (negsuc 0, c) else elim stream [
  | pos id ↦ (if sent then pos id else negsuc 0, set_request a c)
  | negsuc e ↦ (negsuc 0, set_request a c)
]

-- A callback that nghttp2 makes while it receives
pub data Received : Type 0 where
  frame : Frame → Received
  chunk : Bytes → Received
  closed : ℕ → Received

-- The callbacks of one nghttp2_session_recv; it stops at the first that does not return 0.
unfoldable pub receive : List Received → Client → Client
receive [] c = c
receive (frame f ∷ more) c = receive more (on_frame_recv f c)
receive (closed code ∷ more) c = receive more (on_stream_close code c)
receive (chunk bytes ∷ more) c =
    let (ok, c') = on_data_chunk_recv bytes c in
    let rest = receive more c' in if ok then rest else c'

-- What poll says, and for a ready socket whether it has an error, can be read, can be written
pub data Polled : Type 0 where
  poll_failed quiet : Polled
  ready : Bool → Bool → Bool → Polled

-- One round of the loop: the time since its start, what the session wants, what poll says, the callbacks, and
-- whether nghttp2_session_recv and nghttp2_session_send return an error other than WOULDBLOCK
pub record WaitRound : Type 0 where
  pub elapsed_ms : ℕ
  pub wants_read : Bool
  pub wants_write : Bool
  pub polled : Polled
  pub received : List Received
  pub recv_failed : Bool
  pub send_failed : Bool

-- What a round decides: to go on, to break, or to return -1
pub data RoundVerdict : Type 0 where
  goes_on breaks fails : RoundVerdict

-- The part of a round behind poll
unfoldable pub transfer : WaitRound → Bool → Bool → Client → RoundVerdict × Client
transfer r readable writable c =
    let c' = if readable then receive r.received c else c in
    if readable && r.recv_failed
    then (fails, c')
    else if writable && r.send_failed
    then (fails, c')
    else (goes_on, c')

unfoldable pub on_poll : WaitRound → Polled → Client → RoundVerdict × Client
on_poll r poll_failed c = (fails, c)
on_poll r quiet c = (goes_on, c)
on_poll r (ready error readable writable) c =
    if error then (fails, c) else transfer r readable writable c

-- The body of the loop
unfoldable pub round : WaitRound → Client → RoundVerdict × Client
round r c =
    if ltb 30000 r.elapsed_ms
    then (fails, c)
    else let c' = record c { want_read = false; want_write = false } in
      if r.wants_read || r.wants_write then on_poll r r.polled c' else (breaks, c')

-- The loop `while (!client->done)` on the rounds that it makes: `none` while it goes on
unfoldable pub wait_done : List WaitRound → Client → Option (ℤ × Client)
wait_done [] c = if c.done then some (c.response_status, c) else none
wait_done (r ∷ rs) c =
    let (v, c') = round r c in
    let rest = wait_done rs c' in
    if c.done then some (c.response_status, c) else elim v [
      | goes_on ↦ rest
      | breaks ↦ some (c'.response_status, c')
      | fails ↦ some (negsuc 0, c')
    ]

-- `http2_client_recv_response`
unfoldable pub recv_response : List WaitRound → Client → Option (ℤ × Client)
recv_response rs c = if is_live c.session then wait_done rs c else some (negsuc 0, c)
