-- ===== src/Http2Response/Room.antt =====
-- The array of headers of a response in src/http2_response.c.
use mathlib.Core.List.{append-nil, append_assoc}
use emme.Prelude.{
  sym, ap, ◌∙◌, ◌<◌, ◌≤◌, ◌≡◌, refl, Bool, true, false, not, if◌then◌else◌, ltb, ◌&&◌, Option, none,
  some, List, [], ◌∷◌, ◌++◌, Bytes, codes, length, length-append, leb_ℤ, pos, pos_part,
  print_decimal, arith,
}
use emme.Config.Types.{SecurityHeader, SecurityHeadersConfig, CorsConfig}
use emme.Config.Numbers.{is_end}
use emme.Http2Response.{
  Http2Response, max_response_headers, h2_response_add_header, add_security_headers, add_if,
  add_cors_headers, with_cors, h2_response_add_security_headers,
}

-- The headers stay within the array, and those that were there stay in front.
pub record Grown (r s : Http2Response) : Type 0 where
  pub more : List SecurityHeader
  pub headers : s.headers ≡ r.headers ++ more
  pub room : length s.headers ≤ 16
  pub rest : (s.body ≡ r.body) × (s.body_len ≡ r.body_len) × (s.status_code ≡ r.status_code)

kept : (r : Http2Response) → length r.headers ≤ 16 → Grown r r
kept r h = record {
  more = [];
  headers = sym (append-nil r.headers);
  room = h;
  rest = (refl, refl, refl);
}

then-Grown : {r s t : Http2Response} → Grown r s → Grown s t → Grown r t
then-Grown {r} {s} {t} g h = record {
  more = g.more ++ h.more;
  headers = h.headers ∙ ap (λ hs. hs ++ h.more) g.headers ∙ append_assoc r.headers g.more h.more;
  room = h.room;
  rest = (h.rest.0 ∙ g.rest.0, h.rest.1 ∙ g.rest.1, h.rest.2 ∙ g.rest.2);
}

add_header-Grown :
    (r : Http2Response) (name value : Bytes)
    → length r.headers < 16
    → Grown r (h2_response_add_header r name value)
unfolding h2_response_add_header
add_header-Grown r name value h = record {
  more = record { name = name; value = value } ∷ [];
  headers = ground arith;
  room = ground (arith, length-append r.headers (record { name = name; value = value } ∷ []));
  rest = ground arith;
}

if_Grown :
    (r : Http2Response) (b : Bool) {s : Http2Response}
    → (b ≡ true → Grown r s)
    → length r.headers ≤ 16
    → Grown r (if b then s else r)
if_Grown r true g m = g refl
if_Grown r false g m = kept r m

add_if-Grown :
    (wanted : Bool) (name value : Bytes) (r : Http2Response)
    → length r.headers ≤ 16
    → Grown r (add_if wanted name value r)
unfolding add_if
add_if-Grown wanted name value r h =
    if_Grown r (wanted && ltb (length r.headers) max_response_headers)
      (λ e. add_header-Grown r name value (ground arith)) h

add_security_headers-Grown :
    (hs : List SecurityHeader) (r : Http2Response)
    → length r.headers ≤ 16
    → Grown r (add_security_headers hs r)
unfolding add_security_headers
add_security_headers-Grown [] r h = kept r h
add_security_headers-Grown (x ∷ hs) r h =
    if_Grown r (ltb (length r.headers) max_response_headers)
      (λ e.
        let g = add_header-Grown r x.name x.value (ground arith) in
        then-Grown g (add_security_headers-Grown hs _ g.room))
      h

add_cors_headers-Grown :
    (cors : CorsConfig) (r : Http2Response)
    → length r.headers ≤ 16
    → Grown r (add_cors_headers cors r)
unfolding add_cors_headers
add_cors_headers-Grown cors r h =
    let origin =
      add_if-Grown (not (is_end cors.allow_origin)) (codes "Access-Control-Allow-Origin")
        cors.allow_origin r h in
    let methods =
      add_if-Grown (not (is_end cors.allow_methods)) (codes "Access-Control-Allow-Methods")
        cors.allow_methods _ origin.room in
    let fields =
      add_if-Grown (not (is_end cors.allow_headers)) (codes "Access-Control-Allow-Headers")
        cors.allow_headers _ methods.room in
    let credentials =
      add_if-Grown cors.allow_credentials (codes "Access-Control-Allow-Credentials") (codes "true")
        _ fields.room in
    then-Grown origin (
      then-Grown methods (
        then-Grown fields (
          then-Grown credentials (
            add_if-Grown (not (leb_ℤ cors.max_age_seconds (pos 0))) (codes "Access-Control-Max-Age")
              (print_decimal (pos_part cors.max_age_seconds)) _ credentials.room))))

with_cors-Grown :
    (cors : Option CorsConfig) (r : Http2Response)
    → length r.headers ≤ 16
    → Grown r (with_cors cors r)
unfolding with_cors
with_cors-Grown none r h = kept r h
with_cors-Grown (some cors) r h = if_Grown r cors.enabled (λ e. add_cors_headers-Grown cors r h) h

-- `h2_response_add_security_headers` adds headers behind those that a response has, never more than the 16
-- that there is room for, and touches neither the body nor the status.
pub h2_response_add_security_headers-Grown :
    (r : Http2Response) (config : SecurityHeadersConfig) (cors : Option CorsConfig)
    → length r.headers ≤ 16
    → Grown r (h2_response_add_security_headers r config cors)
unfolding h2_response_add_security_headers
h2_response_add_security_headers-Grown r config cors h =
    let added = add_security_headers-Grown config.headers r h in
    if_Grown r config.enabled (λ e. then-Grown added (with_cors-Grown cors _ added.room)) h
