-- ===== src/Http2Client/Examples.antt =====
-- A client with a session, and the theorems on src/http2_client.c at it.
use emme.Prelude.{
  str_eq, ℕ, ◌≡◌, ◌↔◌, ◌⊎◌, negsuc, refl, true, false, not, ◌&&◌, pos, none, some, List, [], ◌∷◌,
  codes, arith,
}
use emme.Http2Client.Client.{
  Client, on_data_chunk_recv, on_frame_recv, on_stream_close, live, absent, released, headers_frame,
  cat_response,
}
use emme.Http2Client.Connect.{
  ConnectCalls, client_init, client_connect, client_cleanup, connected, shaken, connect_to_backend,
  zero_client, negotiate, greet, shake,
}
use emme.Http2Client.Request.{
  wait_done, round, on_poll, transfer, Asked, WaitRound, Received, frame, chunk, closed, receive,
  ready, recv_response, send_request, set_request,
}
use emme.Http2Client.Received.{IsFilled, Reception, receive-Reception}
use emme.Http2Client.BodySent.{read_all, read_all-body}
use emme.Http2Client.Reused.{recv_response-stale}
use emme.Http2Client.Freed.{reaches_session, client_connect-freed}
use emme.Http2Client.Status.{IsCategory, made, was_opened, recv_response-unhealthy}
use emme.BackendPool.HealthCheck.{perform_health_check}

abbrev good_connect : ConnectCalls
good_connect = record {
  socket_opened = true;
  is_address = true;
  is_resolved = false;
  connect_result = connected;
  context_made = true;
  ssl_made = true;
  handshake = shaken ∷ [];
  alpn = some (codes "h2");
  session_made = true;
  settings_submitted = true;
  preface_sent = true;
}

-- The other end does not speak HTTP/2.
abbrev http1_only : ConnectCalls
http1_only = record good_connect { alpn = some (codes "http/1.1") }

abbrev client : Client
client = record zero_client { callbacks = live; ssl = live; socket = live; session = live }

abbrev request : Asked
request = record {
  method = codes "POST";
  path = codes "/a";
  host = codes "h";
  body = some (codes "abc");
  body_len = 3;
}

-- The headers, the body and the close in one round
abbrev answer : List Received
answer = frame (headers_frame true cat_response) ∷ chunk (codes "ok") ∷ closed 0 ∷ []

abbrev round_at : ℕ → WaitRound
round_at ms = record {
  elapsed_ms = ms;
  wants_read = true;
  wants_write = false;
  polled = ready false true false;
  received = answer;
  recv_failed = false;
  send_failed = false;
}

abbrev after_answer : Client
after_answer = record client {
  response_buffer = codes "ok";
  response_received = 2;
  response_status = pos 1;
  done = true;
}

one_round : recv_response (round_at 5 ∷ []) client ≡ some (pos 1, after_answer)
unfolding recv_response wait_done round on_poll transfer receive on_data_chunk_recv on_frame_recv
    on_stream_close
one_round = refl

client_is_opened : client_connect good_connect (client_init true).1 ≡ some (true, client)
unfolding client_init client_connect connect_to_backend shake negotiate str_eq greet
client_is_opened = refl

receive-Reception_example :
    IsFilled (receive answer client) × Reception client answer (receive answer client)
receive-Reception_example =
    receive-Reception answer client (record { counted = refl; bounded = omega arith }) (omega arith)

read_all-body_example :
    let r = read_all (2 ∷ 5 ∷ []) (set_request request client) in (r.0 ≡ codes "abc") × (r.1 ≡ true)
read_all-body_example =
    let r = read_all-body request client 2 (5 ∷ []) refl (omega arith) in (r.0, r.1)

recv_response-stale_example :
    let c' = (send_request (pos 3) true request after_answer).1 in
    (recv_response [] c' ≡ some (pos 1, c'))
    × (c'.response_buffer ≡ codes "ok")
    × (c'.response_received ≡ 2)
recv_response-stale_example = recv_response-stale (pos 3) true request after_answer [] refl refl

client_connect-freed_example :
    (client_cleanup (record client { ssl = released; socket = released; session = absent }) ≡ none)
    ↔ ((connect_to_backend http1_only && not (reaches_session http1_only)) ≡ true)
unfolding client_init client_connect connect_to_backend shake negotiate str_eq greet
client_connect-freed_example =
    client_connect-freed http1_only false
      (record client { ssl = released; socket = released; session = absent }) refl

recv_response-unhealthy_example :
    (IsCategory (pos 1) ⊎ (pos 1 ≡ negsuc 0))
    × (perform_health_check (record { sent = pos 1; status = pos 1 }) ≡ false)
recv_response-unhealthy_example =
    recv_response-unhealthy (round_at 5 ∷ []) client after_answer (pos 1) (pos 1)
      (was_opened (made true) good_connect true client client_is_opened) one_round
