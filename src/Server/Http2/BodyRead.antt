-- ===== src/Server/Http2/BodyRead.antt =====
-- The body of a response that src/server.c gives to nghttp2, read by read: it is given as the client of
-- src/http2_client.c gives the body of a request.
use emme.Prelude.{
  ℕ, ◌+◌, ◌-◌, ◌%◌, ◌^◌, ◌<◌, ◌≤◌, ◌≡◌, refl, ap, ◌∙◌, Bool, false, ltb, leb, ◌||◌, List, [], ◌∷◌,
  ◌++◌, Bytes, inl, inr, Bool-cases, take, length, some, arith,
}
use emme.Http2Response.{Http2Response}
use emme.Http2Client.Client.{Client, data_read}
use emme.Http2Client.Connect.{zero_client}
use emme.Http2Client.Request.{Asked, set_request}
use emme.Http2Client.BodySent.{read_all, sum, read_all-body}
use emme.Server.Http2.{StreamData, body_read}

-- Reads with these amounts of room: the bytes given, whether one of them flagged the end, and the stream
unfoldable pub reads_of : Http2Response → List ℕ → StreamData → Bytes × Bool × StreamData
reads_of r [] d = ([], false, d)
reads_of r (len ∷ lens) d =
    let (bytes, last, d') = body_read r len d in
    let (more, ended, d'') = reads_of r lens d' in (bytes ++ more, last || ended, d'')

-- The client that has sent as much of a request with that body
as_client : Http2Response → StreamData → Client
as_client r d = record zero_client {
  request_body = r.body;
  request_body_len = r.body_len;
  body_sent = d.resp_sent;
}

remaining_is :
    (r : Http2Response) (d : StreamData)
    → d.resp_sent ≤ r.body_len
    → r.body_len < 2 ^ 64
    → (r.body_len + 2 ^ 64 - d.resp_sent) % 2 ^ 64 ≡ r.body_len - d.resp_sent
remaining_is r d h fits = omega (arith, h, fits)

-- One read does what the client's does.
body_read-data_read :
    (r : Http2Response) (len : ℕ) (d : StreamData)
    → d.resp_sent ≤ r.body_len
    → r.body_len < 2 ^ 64
    → let (bytes, last, d') = body_read r len d in
      (data_read len (as_client r d) ≡ (bytes, last, as_client r d')) × (d'.resp_sent ≤ r.body_len)
unfolding body_read data_read as_client
body_read-data_read r len d h fits =
    rw (remaining_is r d h fits) (elim (Bool-cases (ltb (r.body_len - d.resp_sent) len)) [
      | inl e ↦ rw e (ground (arith, e, h, fits))
      | inr e ↦ rw e (ground (arith, e, h, fits))
    ])

reads_of-read_all :
    (r : Http2Response) (lens : List ℕ) (d : StreamData)
    → d.resp_sent ≤ r.body_len
    → r.body_len < 2 ^ 64
    → ((reads_of r lens d).0 ≡ (read_all lens (as_client r d)).0)
      × ((reads_of r lens d).1 ≡ (read_all lens (as_client r d)).1)
unfolding reads_of read_all
reads_of-read_all r [] d h fits = (refl, refl)
reads_of-read_all r (len ∷ lens) d h fits =
    let (same, h') = body_read-data_read r len d h fits in
    let (bytes, ended) = reads_of-read_all r lens (body_read r len d).2 h' fits in
    rw same (ap (λ b. (body_read r len d).0 ++ b) bytes, ap (λ b. (body_read r len d).1 || b) ended)

-- However much room nghttp2 offers read by read, a stream gives it the bytes of the response's body in order and
-- no other: as many as there was room for, and it has flagged the end exactly when that room has reached the
-- length of the body.
pub reads_of-body :
    (r : Http2Response) (d : StreamData) (len : ℕ) (lens : List ℕ)
    → length r.body ≡ r.body_len
    → r.body_len < 2 ^ 64
    → let (bytes, ended, d') = reads_of r (len ∷ lens) (record d { resp_sent = 0 }) in
      (bytes ≡ take (sum (len ∷ lens)) r.body) × (ended ≡ leb r.body_len (sum (len ∷ lens)))
unfolding as_client set_request
reads_of-body r d len lens h fits =
    let fresh : StreamData = record d { resp_sent = 0 } in
    let a : Asked = record {
      method = [];
      path = [];
      host = [];
      body = some r.body;
      body_len = r.body_len;
    } in
    let (bytes, ended) = reads_of-read_all r (len ∷ lens) fresh (omega arith) fits in
    let (all, last) = read_all-body a zero_client len lens h fits in (bytes ∙ all, ended ∙ last)
