-- ===== src/Server/Http2/Examples.antt =====
-- A stream of an HTTP/2 connection, and the theorems on src/server.c at it.
use emme.Prelude.{ℕ, ◌≡◌, refl, true, false, pos, Option, some, List, [], ◌∷◌, Bytes, codes}
use emme.Config.Types.{config_defaults, SecurityHeader}
use emme.Http2Response.{Http2Response, h2_response_init}
use emme.Router.Dispatch.{route_request_h2}
use emme.Router.Sample.{two_routes, files, refusing}
use emme.Server.Http2.Answer.{routes}
use emme.Server.Http2.{StreamData, H2Io, on_request, H2Round, would_block, Ending, h2_loop, nv}
use emme.Server.Http2.Loop.{AllQuiet, one_quiet, h2_loop-idle}

abbrev io : H2Io
io = record {
  want_read = false;
  want_write = false;
  total_read = 0;
  request_count = 0;
  request_start = 0;
  request_timeout_ms = pos 30000;
}

abbrev first_header : SecurityHeader
first_header = nv (codes ":method") (codes "GET")

abbrev others : List (SecurityHeader × ℕ)
others =
    (nv (codes ":path") (codes "/a"), 5)
    ∷ (nv (codes ":scheme") (codes "https"), 5)
    ∷ (nv (codes "accept") (codes "text/html"), 5)
    ∷ []

abbrev response : Http2Response
response = record {
  headers = [];
  body = codes "abcd";
  body_len = 4;
  status_code = pos 200;
  status_text = codes "OK";
  content_type = codes "text/plain";
}

abbrev stream : StreamData
stream = record {
  method = some (codes "GET");
  path = some (codes "/a");
  version = codes "HTTP/2";
  request_id = codes "id";
  resp_sent = 0;
}

abbrev quiet_at : ℕ → H2Round
quiet_at sec = record {
  session_wants = true;
  now = sec;
  now_ms = 0;
  polled = some (false, false, false);
  received = would_block;
  sent = would_block;
  after_recv = λ i. i;
  after_send = λ i. i;
}

h2_loop-idle_example :
    (e : Ending) × (h2_loop config_defaults.http2 (quiet_at 10 ∷ quiet_at 71 ∷ []) (io, 10)
      ≡ (io, some e))
unfolding config_defaults
h2_loop-idle_example =
    h2_loop-idle config_defaults.http2 (quiet_at 10 ∷ []) (quiet_at 71) io 10
      (one_quiet _ refl (one_quiet _ refl AllQuiet.none_left)) refl

abbrev answer_to : (Bytes → ℕ → Option Bytes) → Bytes → Http2Response
answer_to read path =
    (on_request (routes (route_request_h2 files read refusing false two_routes)) h2_response_init
      (record stream { path = some path })).0
