-- ===== src/Http2Client/Reused.antt =====
-- When the wait for a response in src/http2_client.c ends, and what a second request on a client finds.
use emme.Prelude.{
  ◌<◌, ◌≡◌, refl, Bool, true, false, if◌then◌else◌, ℤ, pos, negsuc, Option, some, List, [], ◌∷◌,
  ◌++◌, arith, inl, inr, Bool-cases,
}
use emme.Http2Client.Client.{Client, is_live}
use emme.Http2Client.Request.{
  Asked, send_request, set_request, WaitRound, round, wait_done, recv_response, RoundVerdict,
  goes_on, breaks, fails,
}

late_fails : (r : WaitRound) (c : Client) → 30000 < r.elapsed_ms → round r c ≡ (fails, c)
unfolding round
late_fails r c h = ground arith

abbrev Ends : Option (ℤ × Client) → Type 0
Ends o = (k : ℤ) × (c : Client) × (o ≡ some (k, c))

Ends-if :
    (done : Bool) (c : Client) (o : Option (ℤ × Client))
    → Ends o
    → Ends (if done then some (c.response_status, c) else o)
Ends-if true c o h = (c.response_status, c, refl)
Ends-if false c o h = h

Ends-on :
    (v : RoundVerdict) (c : Client) (rest : Option (ℤ × Client))
    → Ends rest
    → Ends (elim v [
      | goes_on ↦ rest
      | breaks ↦ some (c.response_status, c)
      | fails ↦ some (negsuc 0, c)
    ])
Ends-on goes_on c rest h = h
Ends-on breaks c rest h = (c.response_status, c, refl)
Ends-on fails c rest h = (negsuc 0, c, refl)

wait_done-late :
    (rs : List WaitRound) (r : WaitRound) (c : Client)
    → 30000 < r.elapsed_ms
    → Ends (wait_done (rs ++ (r ∷ [])) c)
unfolding wait_done
wait_done-late [] r c h = rw (late_fails r c h) (Ends-if c.done c _ (negsuc 0, (round r c).1, refl))
wait_done-late (q ∷ rs) r c h =
    let later = wait_done-late rs r (round q c).1 h in
    Ends-if c.done c _ (Ends-on (round q c).0 (round q c).1 _ later)

-- The wait for a response ends with the first round that starts more than 30 seconds after the wait, if it has
-- not ended before.
pub recv_response-ends :
    (rs : List WaitRound) (r : WaitRound) (c : Client)
    → 30000 < r.elapsed_ms
    → (k : ℤ) × (c' : Client) × (recv_response (rs ++ (r ∷ [])) c ≡ some (k, c'))
unfolding recv_response
recv_response-ends rs r c h = elim (Bool-cases (is_live c.session)) [
  | inl e ↦ rw e (wait_done-late rs r c h)
  | inr e ↦ rw e (negsuc 0, c, refl)
]

already_done :
    (rs : List WaitRound) (c : Client)
    → c.done ≡ true
    → wait_done rs c ≡ some (c.response_status, c)
unfolding wait_done
already_done [] c h = rw h refl
already_done (r ∷ rs) c h = rw h refl

sent_fields :
    (stream : ℤ) (sent : Bool) (a : Asked) (c : Client)
    → is_live c.session ≡ true
    → (send_request stream sent a c).1 ≡ set_request a c
unfolding send_request
sent_fields (pos id) sent a c live = rw live refl
sent_fields (negsuc e) sent a c live = rw live refl

wait_at_once :
    (rs : List WaitRound) (c : Client)
    → is_live c.session ≡ true
    → c.done ≡ true
    → recv_response rs c ≡ some (c.response_status, c)
unfolding recv_response
wait_at_once rs c live h = rw (live, already_done rs c h) refl

-- A client whose stream was closed once gives every later request the old answer: the request is sent, but the
-- wait takes no round at all, and it returns the status, with the body, of the response that came before.
pub recv_response-stale :
    (stream : ℤ) (sent : Bool) (a : Asked) (c : Client) (rs : List WaitRound)
    → is_live c.session ≡ true
    → c.done ≡ true
    → let c' = (send_request stream sent a c).1 in
      (recv_response rs c' ≡ some (c.response_status, c'))
      × (c'.response_buffer ≡ c.response_buffer)
      × (c'.response_received ≡ c.response_received)
unfolding set_request
recv_response-stale stream sent a c rs live h =
    rw (sent_fields stream sent a c live) (wait_at_once rs (set_request a c) live h, refl, refl)
