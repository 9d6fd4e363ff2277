-- ===== src/Server/Http1/Refused.antt =====
-- The answers 408, 431 and 400 of src/server.c.
use emme.Prelude.{
  ℕ, suc, ◌+◌, ◌-◌, ◌<◌, ◌≡◌, ap, sym, ◌∙◌, false, if◌then◌else◌, ltb, leb, ◌&&◌, some, List, [],
  ◌∷◌, ◌++◌, Bytes, take, length, arith, inl, inr, Bool-cases, length-append, ltb→lt,
}
use mathlib.Core.List.{append_assoc, append-nil}
use emme.Config.Types.{SecurityHeader, SecurityHeadersConfig}
use emme.Router.Header.{crlf, header_text}
use emme.Server.Http1.{append_global, add_global_security_headers, refuse, response_buffer_size}

-- Headers one after the other, as lines
abbrev pub lines_of : List SecurityHeader → Bytes
lines_of [] = []
lines_of (h ∷ hs) = header_text h.name h.value ++ lines_of hs

-- A text with the first headers of a list behind it
pub record Extends (hs : List SecurityHeader) (text text' : Bytes) : Type 0 where
  pub shown : ℕ
  pub text_is : text' ≡ text ++ lines_of (take shown hs)
  pub fits : length text' < response_buffer_size

same_text :
    (hs : List SecurityHeader) (text : Bytes)
    → length text < response_buffer_size
    → Extends hs text text
same_text hs text h = record { shown = 0; text_is = sym (append-nil text); fits = h }

append_global-Extends :
    (hs : List SecurityHeader) (text : Bytes)
    → length text < response_buffer_size
    → Extends hs text (append_global hs text)
unfolding append_global
append_global-Extends [] text h = same_text [] text h
append_global-Extends (x ∷ hs) text h =
    let line = header_text x.name x.value in
    elim (Bool-cases (
      ltb 20 (response_buffer_size - length text)
      && ltb (length line) (response_buffer_size - length text))) [
        | inl e ↦
            (let fits : length (text ++ line) < response_buffer_size = omega (
              arith,
              length-append text line,
              ltb→lt (length line) (response_buffer_size - length text) (ground (arith, e)),
            ) in
              let more = append_global-Extends hs (text ++ line) fits in
              rw e (record {
                shown = suc more.shown;
                text_is = more.text_is ∙ append_assoc text line (lines_of (take more.shown hs));
                fits = more.fits;
              }))
        | inr e ↦ rw e (same_text (x ∷ hs) text h)
      ]

abbrev shown_headers : SecurityHeadersConfig → List SecurityHeader
shown_headers config = if config.enabled then config.headers else []

add_global_security_headers-Extends :
    (text : Bytes) (config : SecurityHeadersConfig)
    → length text < response_buffer_size
    → Extends (shown_headers config) text (add_global_security_headers text config)
unfolding add_global_security_headers
add_global_security_headers-Extends text config h =
    let room : leb response_buffer_size (length text) ≡ false = ground (arith, h) in
    elim (Bool-cases config.enabled) [
      | inl e ↦ rw (e, room) (append_global-Extends config.headers text h)
      | inr e ↦ rw e (same_text [] text h)
    ]

-- What is sent to a client that is refused is the head, then whole lines of the first security headers, if they
-- are on, and an empty line, in less than 512 bytes.
pub refuse-whole :
    (head text : Bytes) (config : SecurityHeadersConfig)
    → length head < response_buffer_size
    → refuse head config ≡ some text
    → (n : ℕ) × (text
        ≡ head ++ (lines_of (take n (if config.enabled then config.headers else [])) ++ crlf))
      × (length text < response_buffer_size)
unfolding refuse
refuse-whole head text config short h =
    let shown = add_global_security_headers-Extends head config short in
    let all = add_global_security_headers head config in
    elim (Bool-cases (ltb (length all + 2) response_buffer_size)) [
      | inl e ↦
          (let sent : text ≡ all ++ crlf = ground (arith, h, e) in
            (
              shown.shown,
              sent
                  ∙ ap (λ t. t ++ crlf) shown.text_is
                  ∙ append_assoc head (lines_of (take shown.shown (shown_headers config))) crlf,
              rw sent (
                  omega (
                    arith,
                    length-append all crlf,
                    ltb→lt (length all + 2) response_buffer_size e,
                  )),
            ))
      | inr e ↦ absurd (ground (arith, h, e))
    ]
