-- ===== src/Http2Client/Received.antt =====
-- What stands in the response buffer of src/http2_client.c.
use emme.Prelude.{
  ◌+◌, ◌%◌, ◌^◌, ◌<◌, ◌≤◌, ◌≡◌, refl, ap, sym, ◌∙◌, true, false, leb, inl, inr, List, [], ◌∷◌, ◌++◌,
  Bytes, length, arith, length-append, Bool-cases, take_all, leb→le, leb-false,
}
use mathlib.Core.List.{append_assoc, append-nil}
use native.Mathlib.Nat.{mod-eq_of_lt}
use emme.Http2Client.Client.{
  Client, Frame, client_buffer_size, on_data_chunk_recv, on_frame_recv, on_stream_close,
  headers_frame, other_frame,
}
use emme.Http2Client.Request.{Received, frame, chunk, closed, receive}

-- The bytes of the response in the order in which they come
abbrev pub body : List Received → Bytes
body [] = []
body (frame f ∷ more) = body more
body (chunk bytes ∷ more) = bytes ++ body more
body (closed code ∷ more) = body more

pub record IsFilled (c : Client) : Type 0 where
  pub counted : c.response_received ≡ length c.response_buffer
  pub bounded : c.response_received ≤ client_buffer_size

-- All of the body behind what was there, or what comes before the first chunk that does not fit
pub data Reception (c : Client) (rs : List Received) (c' : Client) : Type 0 where
  complete : c'.response_buffer ≡ c.response_buffer ++ body rs → Reception c rs c'
  overflow :
      (front back : List Received) (bytes : Bytes)
      → rs ≡ front ++ (chunk bytes ∷ back)
      → c'.response_buffer ≡ c.response_buffer ++ body front
      → client_buffer_size < length (c.response_buffer ++ body front) + length bytes
      → Reception c rs c'

frame-same :
    (f : Frame) (c : Client)
    → ((on_frame_recv f c).response_buffer ≡ c.response_buffer)
      × ((on_frame_recv f c).response_received ≡ c.response_received)
unfolding on_frame_recv
frame-same (headers_frame end_headers cat) c = (ground arith, ground arith)
frame-same other_frame c = (refl, refl)

chunk-fits :
    (bytes : Bytes) (c : Client)
    → IsFilled c
    → c.response_received + length bytes ≤ client_buffer_size
    → on_data_chunk_recv bytes c ≡ (
      true,
      record c {
        response_buffer = c.response_buffer ++ bytes;
        response_received = c.response_received + length bytes;
      },
    )
unfolding on_data_chunk_recv
chunk-fits bytes c f h =
    let e : (c.response_received + length bytes) % 2 ^ 64 ≡ c.response_received + length bytes =
      mod-eq_of_lt (omega (arith, h)) in
    let fits : leb (c.response_received + length bytes) client_buffer_size ≡ true =
      ground (arith, h) in
    rw (e, fits, take_all c.response_received c.response_buffer (omega (arith, f.counted))) refl

chunk-over :
    (bytes : Bytes) (c : Client)
    → IsFilled c
    → length bytes < 2 ^ 63
    → client_buffer_size < c.response_received + length bytes
    → on_data_chunk_recv bytes c ≡ (false, c)
unfolding on_data_chunk_recv
chunk-over bytes c f short h =
    let b = f.bounded in
    let e : (c.response_received + length bytes) % 2 ^ 64 ≡ c.response_received + length bytes =
      mod-eq_of_lt (omega (arith, short, b)) in
    rw e (ground (arith, h))

-- An event in front that leaves the buffer as it is
quiet_first :
    (r : Received) (rs : List Received) (c c' c'' : Client)
    → body (r ∷ rs) ≡ body rs
    → ((front : List Received) → body (r ∷ front) ≡ body front)
    → c'.response_buffer ≡ c.response_buffer
    → Reception c' rs c''
    → Reception c (r ∷ rs) c''
quiet_first r rs c c' c'' silent silents same (complete e) = complete (rw (silent, ← same) e)
quiet_first r rs c c' c'' silent silents same (overflow front back bytes split e over) =
    overflow (r ∷ front) back bytes (ap (λ xs. r ∷ xs) split) (rw (silents front, ← same) e)
      (rw (silents front, ← same) over)

chunk_first :
    (bytes : Bytes) (rs : List Received) (c c' c'' : Client)
    → c'.response_buffer ≡ c.response_buffer ++ bytes
    → Reception c' rs c''
    → Reception c (chunk bytes ∷ rs) c''
chunk_first bytes rs c c' c'' added (complete e) =
    complete (e ∙ ap (λ xs. xs ++ body rs) added ∙ append_assoc c.response_buffer bytes (body rs))
chunk_first bytes rs c c' c'' added (overflow front back late split e over) =
    overflow (chunk bytes ∷ front) back late (ap (λ xs. chunk bytes ∷ xs) split)
      (e ∙ ap (λ xs. xs ++ body front) added ∙ append_assoc c.response_buffer bytes (body front))
      (rw (← append_assoc c.response_buffer bytes (body front), ← added) over)

-- While nghttp2 receives, the response buffer takes the chunks of the body in order and nothing else, and its
-- length stays within its 65536 bytes; it holds all of them, or else all those before a first one that does not
-- fit behind them. The body is shorter than 2^63 bytes.
pub receive-Reception :
    (rs : List Received) (c : Client)
    → IsFilled c
    → length (body rs) < 2 ^ 63
    → IsFilled (receive rs c) × Reception c rs (receive rs c)
unfolding receive on_stream_close
receive-Reception [] c f h = (f, complete (sym (append-nil c.response_buffer)))
receive-Reception (frame g ∷ rs) c f h =
    let (b, n) = frame-same g c in
    let (f', o) =
      receive-Reception rs (on_frame_recv g c)
        (record { counted = n ∙ f.counted ∙ ap length (sym b); bounded = rw n f.bounded }) h in
    (f', quiet_first (frame g) rs c (on_frame_recv g c) _ refl (λ front. refl) b o)
receive-Reception (closed code ∷ rs) c f h =
    let (f', o) =
      receive-Reception rs (on_stream_close code c)
        (record { counted = f.counted; bounded = f.bounded }) h in
    (f', quiet_first (closed code) rs c (on_stream_close code c) _ refl (λ front. refl) refl o)
receive-Reception (chunk bytes ∷ rs) c f h =
    let all = length-append bytes (body rs) in
    elim (Bool-cases (leb (c.response_received + length bytes) client_buffer_size)) [
      | inl e ↦
          (let c' = record c {
            response_buffer = c.response_buffer ++ bytes;
            response_received = c.response_received + length bytes;
          } in
            let fits = leb→le (c.response_received + length bytes) client_buffer_size e in
            let (f', o) =
              receive-Reception rs c'
                (record {
                  counted = omega (arith, f.counted, length-append c.response_buffer bytes);
                  bounded = fits;
                })
                (omega (arith, h, all)) in
            rw (chunk-fits bytes c f fits) (f', chunk_first bytes rs c c' _ refl o))
      | inr e ↦
          (let over = leb-false (c.response_received + length bytes) client_buffer_size e in
            rw (chunk-over bytes c f (omega (arith, h, all)) over) (
              f,
              overflow [] rs bytes refl (sym (append-nil c.response_buffer))
                  (rw (append-nil c.response_buffer) (omega (arith, over, f.counted))),
            ))
    ]
