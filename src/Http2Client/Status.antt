-- ===== src/Http2Client/Status.antt =====
-- The status that the client of src/http2_client.c reports, and what the health checker makes of it.
use emme.Prelude.{
  ℕ, ◌<◌, ◌≡◌, Bool, true, false, ℤ, pos, negsuc, ◌⊎◌, Option, none, some, List, [], ◌∷◌, ap, arith,
  inl, inr, Bool-cases, if_both, ltb, if◌then◌else◌, ◌&&◌, ◌||◌,
}
use mathlib.Core.Path.{subst}
use emme.Http2Client.Client.{
  Client, is_live, Frame, headers_frame, other_frame, cat_request, cat_response, cat_push_response,
  cat_headers, on_frame_recv, on_data_chunk_recv, on_stream_close,
}
use emme.Http2Client.Request.{
  Asked, send_request, set_request, Received, frame, chunk, closed, receive, WaitRound, round,
  on_poll, transfer, poll_failed, quiet, ready, Polled, wait_done, recv_response, RoundVerdict,
  goes_on, breaks, fails,
}
use emme.Http2Client.Connect.{
  ConnectCalls, client_init, client_connect, negotiate, greet, client_cleanup,
}
use emme.BackendPool.HealthCheck.{perform_health_check}

-- Less than 4 and not negative
pub data IsCategory : ℤ → Type 0 where
  category : (n : ℕ) → n < 4 → IsCategory (pos n)

frame-IsCategory :
    (f : Frame) (c : Client)
    → IsCategory c.response_status
    → IsCategory (on_frame_recv f c).response_status
unfolding on_frame_recv
frame-IsCategory (headers_frame true cat_request) c h = category 0 (omega arith)
frame-IsCategory (headers_frame true cat_response) c h = category 1 (omega arith)
frame-IsCategory (headers_frame true cat_push_response) c h = category 2 (omega arith)
frame-IsCategory (headers_frame true cat_headers) c h = category 3 (omega arith)
frame-IsCategory (headers_frame false cat) c h = h
frame-IsCategory other_frame c h = h

chunk_status :
    (bytes : List ℕ) (c : Client)
    → (on_data_chunk_recv bytes c).1.response_status ≡ c.response_status
unfolding on_data_chunk_recv
chunk_status bytes c = ground arith

receive-IsCategory :
    (rs : List Received) (c : Client)
    → IsCategory c.response_status
    → IsCategory (receive rs c).response_status
unfolding receive on_stream_close
receive-IsCategory [] c h = h
receive-IsCategory (frame f ∷ rs) c h =
    receive-IsCategory rs (on_frame_recv f c) (frame-IsCategory f c h)
receive-IsCategory (closed code ∷ rs) c h = receive-IsCategory rs (on_stream_close code c) h
receive-IsCategory (chunk bytes ∷ rs) c h =
    let same = chunk_status bytes c in
    let rest = receive-IsCategory rs (on_data_chunk_recv bytes c).1 (rw same h) in
    elim (Bool-cases (on_data_chunk_recv bytes c).0) [ inl e ↦ rw e rest | inr e ↦ rw (e, same) h ]

abbrev Kept : RoundVerdict × Client → Type 0
Kept (v, c) = IsCategory c.response_status

transfer-Kept :
    (r : WaitRound) (readable writable : Bool) (c : Client)
    → IsCategory c.response_status
    → Kept (transfer r readable writable c)
unfolding transfer
transfer-Kept r readable writable c h =
    let got : IsCategory (if readable then receive r.received c else c).response_status =
      if_both (λ (x : Client). IsCategory x.response_status) readable (receive r.received c) c
        (receive-IsCategory r.received c h) h in
    if_both Kept (readable && r.recv_failed) _ _ got
      (if_both Kept (writable && r.send_failed) _ _ got got)

on_poll-Kept :
    (r : WaitRound) (p : Polled) (c : Client) → IsCategory c.response_status → Kept (on_poll r p c)
unfolding on_poll
on_poll-Kept r poll_failed c h = h
on_poll-Kept r quiet c h = h
on_poll-Kept r (ready error readable writable) c h =
    if_both Kept error _ _ h (transfer-Kept r readable writable c h)

round-Kept : (r : WaitRound) (c : Client) → IsCategory c.response_status → Kept (round r c)
unfolding round
round-Kept r c h =
    if_both Kept (ltb 30000 r.elapsed_ms) _ _ h
      (if_both Kept (r.wants_read || r.wants_write) _ _ (on_poll-Kept r r.polled _ h) h)

-- A result of the wait: a category, or -1
data IsAnswer : Option (ℤ × Client) → Type 0 where
  waits : IsAnswer none
  category_answer :
      (c : Client) → IsCategory c.response_status → IsAnswer (some (c.response_status, c))
  failure : (c : Client) → IsCategory c.response_status → IsAnswer (some (negsuc 0, c))

on_verdict :
    (v : RoundVerdict) (c : Client) (rest : Option (ℤ × Client))
    → IsCategory c.response_status
    → IsAnswer rest
    → IsAnswer (elim v [
      | goes_on ↦ rest
      | breaks ↦ some (c.response_status, c)
      | fails ↦ some (negsuc 0, c)
    ])
on_verdict goes_on c rest h more = more
on_verdict breaks c rest h more = category_answer c h
on_verdict fails c rest h more = failure c h

wait_done-IsAnswer :
    (rs : List WaitRound) (c : Client) → IsCategory c.response_status → IsAnswer (wait_done rs c)
unfolding wait_done
wait_done-IsAnswer [] c h = if_both IsAnswer c.done _ _ (category_answer c h) waits
wait_done-IsAnswer (r ∷ rs) c h =
    let kept = round-Kept r c h in
    let more = wait_done-IsAnswer rs (round r c).1 kept in
    if_both IsAnswer c.done _ _ (category_answer c h)
      (on_verdict (round r c).0 (round r c).1 _ kept more)

recv_response-IsAnswer :
    (rs : List WaitRound) (c : Client)
    → IsCategory c.response_status
    → IsAnswer (recv_response rs c)
unfolding recv_response
recv_response-IsAnswer rs c h =
    if_both IsAnswer (is_live c.session) _ _ (wait_done-IsAnswer rs c h) (failure c h)

sent_status :
    (stream : ℤ) (sent : Bool) (a : Asked) (c : Client)
    → (send_request stream sent a c).1.response_status ≡ c.response_status
unfolding send_request set_request
sent_status (pos id) sent a c = ground arith
sent_status (negsuc e) sent a c = ground arith

connected_status :
    (calls : ConnectCalls) (ok : Bool) (c c' : Client)
    → client_connect calls c ≡ some (ok, c')
    → c'.response_status ≡ c.response_status
unfolding client_connect negotiate greet client_cleanup
connected_status calls ok c c' e = ground (arith, e)

-- The clients of the program: made, connected, and used for requests and responses
pub data Used : Client → Type 0 where
  made : (ok : Bool) → Used (client_init ok).1
  was_opened :
      {c : Client}
      → Used c
      → (calls : ConnectCalls) (ok : Bool) (c' : Client) → client_connect calls c ≡ some (ok, c')
      → Used c'
  asked :
      {c : Client}
      → Used c
      → (stream : ℤ) (sent : Bool) (a : Asked) → Used (send_request stream sent a c).1
  answered :
      {c : Client}
      → Used c
      → (rs : List WaitRound) (k : ℤ) (c' : Client) → recv_response rs c ≡ some (k, c')
      → Used c'

some_same : {A : Type 0} {a b : A} → some a ≡ some b → a ≡ b
some_same {A} {a} {b} e = ap (λ (o : Option A). elim o [ none ↦ a | some x ↦ x ]) e

answer_client :
    (o : Option (ℤ × Client)) (k : ℤ) (c : Client)
    → IsAnswer o
    → o ≡ some (k, c)
    → IsCategory c.response_status
answer_client _ k c waits e = absurd (ground (arith, e))
answer_client _ k c (category_answer d h) e =
    subst (λ (x : ℤ × Client). IsCategory x.1.response_status) (some_same e) h
answer_client _ k c (failure d h) e =
    subst (λ (x : ℤ × Client). IsCategory x.1.response_status) (some_same e) h

Used-IsCategory : (c : Client) → Used c → IsCategory c.response_status
unfolding client_init
Used-IsCategory _ (made true) = category 0 (omega arith)
Used-IsCategory _ (made false) = category 0 (omega arith)
Used-IsCategory c' (was_opened {c} u calls ok _ e) =
    rw (connected_status calls ok c c' e) (Used-IsCategory c u)
Used-IsCategory _ (asked {c} u stream sent a) =
    rw (sent_status stream sent a c) (Used-IsCategory c u)
Used-IsCategory c' (answered {c} u rs k _ e) =
    answer_client (recv_response rs c) k c' (recv_response-IsAnswer rs c (Used-IsCategory c u)) e

category_unhealthy :
    (sent k : ℤ) → IsCategory k → perform_health_check (record { sent = sent; status = k }) ≡ false
unfolding perform_health_check
category_unhealthy sent _ (category n small) = ground arith

failure_unhealthy :
    (sent : ℤ) → perform_health_check (record { sent = sent; status = negsuc 0 }) ≡ false
unfolding perform_health_check
failure_unhealthy sent = ground arith

-- A status that is a number below 4 or -1, and the check with it
abbrev Failing : ℤ → ℤ → Type 0
Failing sent k =
    (IsCategory k ⊎ (k ≡ negsuc 0))
    × (perform_health_check (record { sent = sent; status = k }) ≡ false)

answer_unhealthy :
    (o : Option (ℤ × Client)) (sent k : ℤ) (c : Client)
    → IsAnswer o
    → o ≡ some (k, c)
    → Failing sent k
answer_unhealthy _ sent k c waits e = absurd (ground (arith, e))
answer_unhealthy _ sent k c (category_answer d h) e =
    subst (λ (x : ℤ × Client). Failing sent x.0) (some_same e)
      (inl h, category_unhealthy sent d.response_status h)
answer_unhealthy _ sent k c (failure d h) e =
    subst (λ (x : ℤ × Client). Failing sent x.0) (some_same e)
      (inr (λ i. negsuc 0), failure_unhealthy sent)

-- The status that a client reports is a number below 4, as the categories of frames are, or -1, whatever the
-- backend answers, on the first request or a later one; and the check of a backend with that status fails.
pub recv_response-unhealthy :
    (rs : List WaitRound) (c c' : Client) (sent k : ℤ)
    → Used c
    → recv_response rs c ≡ some (k, c')
    → (IsCategory k ⊎ (k ≡ negsuc 0))
      × (perform_health_check (record { sent = sent; status = k }) ≡ false)
recv_response-unhealthy rs c c' sent k u e =
    answer_unhealthy (recv_response rs c) sent k c'
      (recv_response-IsAnswer rs c (Used-IsCategory c u)) e
