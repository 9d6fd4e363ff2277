-- ===== src/Router/Whole.antt =====
-- What the header of a response in src/router.c consists of, and how far its writes reach.
use mathlib.Core.Path.{subst}
use mathlib.Core.List.{append-nil, append_assoc}
use emme.Prelude.{
  sym, ap, ◌∙◌, ℕ, ◌+◌, ◌≤◌, ◌<◌, ◌≡◌, refl, Bool, true, false, not, if◌then◌else◌, ltb, leb, ◌&&◌,
  pos, pos_part, leb_ℤ, some, List, [], ◌∷◌, ◌++◌, Bytes, codes, length, length-append,
  print_decimal, arith, Bool-cases, inl, inr,
}
use emme.Config.Numbers.{is_end}
use emme.Config.Types.{ServerConfig, SecurityHeader, SecurityHeadersConfig, CorsConfig}
use emme.Router.Header.{
  HeaderBuffer, remaining, larger, append_line, header_text, append_headers,
  add_security_headers_to_buffer, append_if, add_cors_headers_to_buffer, finish_header, status_head,
  send_simple_response_with_config, crlf, header_buffer_size,
}
use emme.Router.Choice.{get_security_headers_for_request, get_cors_config_for_request}

-- Whole header lines
pub data Lines : Bytes → Type 0 where
  no_lines : Lines []
  and_line :
      {rest : Bytes} (name value : Bytes) → Lines rest → Lines (header_text name value ++ rest)

append-Lines : {a b : Bytes} → Lines a → Lines b → Lines (a ++ b)
append-Lines no_lines bs = bs
append-Lines {b = b} (and_line {rest} name value as') bs =
    subst Lines (sym (append_assoc (header_text name value) rest b))
      (and_line name value (append-Lines as' bs))

-- `b'` is `b` with whole lines behind it, in the 1024 bytes that the functions reckon with.
pub record Extended (b b' : HeaderBuffer) : Type 0 where
  pub added : Bytes
  pub lines : Lines added
  pub content : b'.content ≡ b.content ++ added
  pub room : length b'.content < 1024
  pub reach : (b.reach ≤ b'.reach) × (b'.reach ≤ larger b.reach 1024)

unchanged : (b : HeaderBuffer) → length b.content < 1024 → Extended b b
unchanged b h = record {
  added = [];
  lines = no_lines;
  content = sym (append-nil b.content);
  room = h;
  reach = ground arith;
}

then-Extended : {a b c : HeaderBuffer} → Extended a b → Extended b c → Extended a c
then-Extended {a} {b} {c} e f = record {
  added = e.added ++ f.added;
  lines = append-Lines e.lines f.lines;
  content = f.content ∙ ap (λ t. t ++ f.added) e.content ∙ append_assoc a.content e.added f.added;
  room = f.room;
  reach = ground (arith, e.reach, f.reach);
}

append_line-Extended :
    (b : HeaderBuffer) (name value : Bytes)
    → length b.content < 1024
    → Extended b (append_line b (header_text name value))
unfolding append_line
append_line-Extended b name value h =
    elim (Bool-cases (ltb (length (header_text name value)) (remaining b))) [
      | inl fits ↦ record {
        added = header_text name value;
        lines = subst Lines (append-nil (header_text name value)) (and_line name value no_lines);
        content = ground (arith, fits);
        room = ground (arith, fits, length-append b.content (header_text name value));
        reach = ground (arith, fits);
      }
      | inr cut ↦ record {
        added = [];
        lines = no_lines;
        content = ground (arith, cut, append-nil b.content);
        room = ground (arith, cut);
        reach = ground (arith, cut);
      }
    ]

if_Extended :
    (b : HeaderBuffer) (t : Bool) {b' : HeaderBuffer}
    → (t ≡ true → Extended b b')
    → length b.content < 1024
    → Extended b (if t then b' else b)
if_Extended b true e h = e refl
if_Extended b false e h = unchanged b h

append_if-Extended :
    (wanted : Bool) (room : ℕ) (name value : Bytes) (b : HeaderBuffer)
    → length b.content < 1024
    → Extended b (append_if wanted room (header_text name value) b)
unfolding append_if
append_if-Extended wanted room name value b h =
    if_Extended b (wanted && ltb room (remaining b)) (λ e. append_line-Extended b name value h) h

append_headers-Extended :
    (hs : List SecurityHeader) (b : HeaderBuffer)
    → length b.content < 1024
    → Extended b (append_headers hs b)
unfolding append_headers
append_headers-Extended [] b h = unchanged b h
append_headers-Extended (x ∷ hs) b h =
    let line = append_line-Extended b x.name x.value h in
    if_Extended b (ltb 20 (remaining b))
      (λ e.
        or_stop (ltb (length (header_text x.name x.value)) (remaining b))
          (then-Extended line (append_headers-Extended hs _ line.room)) line)
      h
  where
    or_stop :
        (t : Bool) {c d : HeaderBuffer}
        → Extended b c
        → Extended b d
        → Extended b (if t then c else d)
    or_stop true e f = e
    or_stop false e f = f

unless_Extended :
    (b : HeaderBuffer) (t : Bool) {b' : HeaderBuffer}
    → Extended b b'
    → length b.content < 1024
    → Extended b (if t then b else b')
unless_Extended b true e h = unchanged b h
unless_Extended b false e h = e

-- `add_security_headers_to_buffer` puts whole header lines behind the text, and the text stays below the
-- 1024 bytes that it reckons with.
pub add_security_headers_to_buffer-Extended :
    (b : HeaderBuffer) (config : SecurityHeadersConfig)
    → length b.content < 1024
    → Extended b (add_security_headers_to_buffer b config)
unfolding add_security_headers_to_buffer
add_security_headers_to_buffer-Extended b config h =
    unless_Extended b _ (append_headers-Extended config.headers b h) h

pub add_cors_headers_to_buffer-Extended :
    (b : HeaderBuffer) (cors : CorsConfig)
    → length b.content < 1024
    → Extended b (add_cors_headers_to_buffer b cors)
unfolding add_cors_headers_to_buffer
add_cors_headers_to_buffer-Extended b cors h =
    let origin =
      append_if-Extended (not (is_end cors.allow_origin)) 0 (codes "Access-Control-Allow-Origin")
        cors.allow_origin b h in
    let methods =
      append_if-Extended (not (is_end cors.allow_methods)) 30 (codes "Access-Control-Allow-Methods")
        cors.allow_methods _ origin.room in
    let fields =
      append_if-Extended (not (is_end cors.allow_headers)) 30 (codes "Access-Control-Allow-Headers")
        cors.allow_headers _ methods.room in
    let credentials =
      append_if-Extended cors.allow_credentials 40 (codes "Access-Control-Allow-Credentials")
        (codes "true") _ fields.room in
    let max_age =
      append_if-Extended (not (leb_ℤ cors.max_age_seconds (pos 0))) 30
        (codes "Access-Control-Max-Age") (print_decimal (pos_part cors.max_age_seconds)) _
        credentials.room in
    unless_Extended b _
      (then-Extended origin
        (then-Extended methods (then-Extended fields (then-Extended credentials max_age))))
      h

-- What goes out: the head, whole lines, an empty line and the body
pub record Response (head body text : Bytes) : Type 0 where
  pub added : Bytes
  pub lines : Lines added
  pub text_is : text ≡ (head ++ added) ++ (crlf ++ body)
  pub fits : length head + length added + 2 < 256

finish_header-Response :
    (head body text : Bytes) (b b' : HeaderBuffer)
    → b.content ≡ head
    → Extended b b'
    → (finish_header b' body).text ≡ some text
    → Response head body text
unfolding finish_header
finish_header-Response head body text b b' e x h = record {
  added = x.added;
  lines = x.lines;
  text_is = ground (arith, x.content, e);
  fits = ground (arith, x.content, e, length-append head x.added);
}

-- Where `send_simple_response_with_config` sends something, it is the status line, the content type and
-- length, then whole lines of headers, an empty line and the body, and the header is below 256 bytes.
pub send_simple-Response :
    (status_line content_type body path text : Bytes) (c : ServerConfig)
    → (send_simple_response_with_config status_line content_type body path c).text ≡ some text
    → Response (status_head status_line content_type body) body text
unfolding send_simple_response_with_config
send_simple-Response status_line content_type body path text c h =
    elim (Bool-cases
      (leb header_buffer_size (length (status_head status_line content_type body)))) [
        | inl long ↦ absurd (ground (arith, long, h))
        | inr short ↦
            let head = status_head status_line content_type body in
            let b : HeaderBuffer = record { content = head; reach = length head + 1 } in
            let security =
              add_security_headers_to_buffer-Extended b (get_security_headers_for_request path c)
                (ground (arith, short)) in
            finish_header-Response head body text b _ refl
              (then-Extended security (
                add_cors_headers_to_buffer-Extended _ (get_cors_config_for_request path c)
                  security.room))
              (ground (arith, short, h))
      ]

append_headers_reach :
    (hs : List SecurityHeader) (b : HeaderBuffer)
    → length b.content < 1024
    → b.reach ≤ (append_headers hs b).reach
append_headers_reach hs b h = (append_headers-Extended hs b h).reach.0

-- The buffer that `send_simple_response_with_config` passes has 256 bytes, and `add_security_headers_to_buffer`
-- writes past them when the first header is on and does not fit there but is below the 1024 bytes that it
-- reckons with.
pub add_security_headers_to_buffer_overruns :
    (b : HeaderBuffer) (h : SecurityHeader) (hs : List SecurityHeader)
    → length b.content < 256
    → 256 ≤ length b.content + length (header_text h.name h.value)
    → length b.content + length (header_text h.name h.value) < 1024
    → 256 < (add_security_headers_to_buffer b (record { enabled = true; headers = h ∷ hs })).reach
unfolding add_security_headers_to_buffer append_headers append_line
add_security_headers_to_buffer_overruns b h hs short long fits =
    let line = append_line-Extended b h.name h.value (omega arith) in
    ground (arith, append_headers_reach hs (append_line b (header_text h.name h.value)) line.room)
