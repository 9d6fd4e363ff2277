-- ===== src/HttpParser/Printed.antt =====
-- The parser of src/http_parser.c on a request as a client writes it.
use mathlib.Core.List.{append-nil, append_assoc}
use emme.Prelude.{
  sym, ap, ◌∙◌, ℕ, ◌+◌, ◌≤◌, ◌<◌, ◌≡◌, refl, Bool, true, false, some, List, [], ◌∷◌, ◌++◌, Bytes,
  codes, has_prefix, length, length-append, arith,
}
use emme.Config.Numbers.{is_end, skip_spaces, is_space}
use emme.HttpParser.{
  HttpHeader, lines_from, all_upper, parse_request_line, parse_headers_from, request_of,
  parse_http_request, max_headers, max_request_line,
}
use emme.HttpParser.Lines.{Without, lines_from-line, split_at-append, Without-append}

-- A text that fits into a line: no NUL and no CR.
abbrev pub Clean : Bytes → Type 0
Clean s = Without 0 s × Without 13 s

abbrev pub request_line : Bytes → Bytes → Bytes → Bytes
request_line method path version = method ++ (b' ' ∷ path ++ (b' ' ∷ version))

-- A field, a colon, a space, the value
abbrev pub header_line : HttpHeader → Bytes
header_line h = h.field ++ (b':' ∷ b' ' ∷ h.value)

abbrev starts_with_space : Bytes → Bool
starts_with_space [] = false
starts_with_space (c ∷ s) = is_space c

pub record WellFormed (h : HttpHeader) : Type 0 where
  pub named : is_end h.field ≡ false
  pub field : Clean h.field
  pub no_colon : Without b':' h.field
  pub value : Clean h.value
  pub no_space : starts_with_space h.value ≡ false

pub data AllWellFormed : List HttpHeader → Type 0 where
  no_headers : AllWellFormed []
  and_header :
      {hs : List HttpHeader} (h : HttpHeader)
      → WellFormed h
      → AllWellFormed hs
      → AllWellFormed (h ∷ hs)

abbrev pub print_headers : List HttpHeader → Bytes → Bytes
print_headers [] rest = 13 ∷ 10 ∷ rest
print_headers (h ∷ hs) rest = header_line h ++ (13 ∷ 10 ∷ print_headers hs rest)

abbrev header_lines : List HttpHeader → List Bytes → List Bytes
header_lines [] ls = [] ∷ ls
header_lines (h ∷ hs) ls = header_line h ∷ header_lines hs ls

append-Clean : (a b : Bytes) → Clean a → Clean b → Clean (a ++ b)
append-Clean a b v w = (Without-append 0 a b v.0 w.0, Without-append 13 a b v.1 w.1)

header_line-Clean : (h : HttpHeader) → WellFormed h → Clean (header_line h)
header_line-Clean h w =
    append-Clean h.field (b':' ∷ b' ' ∷ h.value) w.field
      ((grind arith, (grind arith, w.value.0)), (grind arith, (grind arith, w.value.1)))

lines_from-headers :
    (hs : List HttpHeader) (rest : Bytes)
    → AllWellFormed hs
    → lines_from false (print_headers hs rest) ≡ header_lines hs (lines_from false rest)
lines_from-headers _ rest no_headers = lines_from-line [] rest tt tt
lines_from-headers _ rest (and_header {hs} h w more) =
    let clean = header_line-Clean h w in
    lines_from-line (header_line h) (print_headers hs rest) clean.0 clean.1
    ∙ ap (λ ls. header_line h ∷ ls) (lines_from-headers hs rest more)

skip_spaces-none : (s : Bytes) → starts_with_space s ≡ false → skip_spaces s ≡ s
unfolding skip_spaces
skip_spaces-none [] h = refl
skip_spaces-none (c ∷ s) h = ground arith

skip_spaces-one : (s : Bytes) → starts_with_space s ≡ false → skip_spaces (b' ' ∷ s) ≡ s
unfolding skip_spaces is_space
skip_spaces-one s h = ground (arith, skip_spaces-none s h)

-- One round of the loop on a line that starts with a byte of the field
one_header :
    (c : ℕ) (f value : Bytes) (before : List HttpHeader) (ls : List Bytes)
    → Without b':' (c ∷ f)
    → starts_with_space value ≡ false
    → length before < max_headers
    → parse_headers_from (((c ∷ f) ++ (b':' ∷ b' ' ∷ value)) ∷ ls) before
      ≡ parse_headers_from ls (before ++ (record { field = c ∷ f; value = value } ∷ []))
unfolding parse_headers_from
one_header c f value before ls n sp b =
    ground (arith, split_at-append b':' (c ∷ f) (b' ' ∷ value) n, skip_spaces-one value sp)

any_header :
    (f value : Bytes) (before : List HttpHeader) (ls : List Bytes)
    → is_end f ≡ false
    → Without b':' f
    → starts_with_space value ≡ false
    → length before < max_headers
    → parse_headers_from ((f ++ (b':' ∷ b' ' ∷ value)) ∷ ls) before
      ≡ parse_headers_from ls (before ++ (record { field = f; value = value } ∷ []))
any_header [] value before ls e n sp b = absurd (ground (arith, e))
any_header (c ∷ f) value before ls e n sp b = one_header c f value before ls n sp b

parse_headers_from-lines :
    (hs before : List HttpHeader) (ls : List Bytes)
    → AllWellFormed hs
    → length before + length hs ≤ max_headers
    → parse_headers_from (header_lines hs ls) before ≡ some (before ++ hs)
unfolding parse_headers_from
parse_headers_from-lines _ before ls no_headers b = ap some (sym (append-nil before))
parse_headers_from-lines _ before ls (and_header {hs} h w more) b =
    any_header h.field h.value before (header_lines hs ls) w.named w.no_colon w.no_space
      (omega arith)
    ∙ parse_headers_from-lines hs (before ++ (h ∷ [])) ls more
        (omega (arith, length-append before (h ∷ [])))
    ∙ ap some (append_assoc before (h ∷ []) hs)

-- What the request line may be made of
pub record WellFormedLine (method path version : Bytes) : Type 0 where
  pub named : is_end method ≡ false
  pub upper : all_upper method ≡ true
  pub one_word : Without b' ' path
  pub clean : Clean path
  pub http : has_prefix version (codes "HTTP/") ≡ true
  pub clean_version : Clean version
  pub short : length (request_line method path version) ≤ max_request_line

all_upper-Without : (c : ℕ) (s : Bytes) → all_upper s ≡ true → c < b'A' → Without c s
unfolding all_upper
all_upper-Without c [] h l = tt
all_upper-Without c (d ∷ s) h l = (ground arith, all_upper-Without c s (ground arith) l)

parse_request_line-printed :
    (method path version : Bytes)
    → WellFormedLine method path version
    → parse_request_line (request_line method path version) ≡ some (method, path, version)
unfolding parse_request_line
parse_request_line-printed method path version w = ground (
  arith,
  w,
  split_at-append b' ' method (path ++ (b' ' ∷ version))
      (all_upper-Without b' ' method w.upper (omega arith)),
  split_at-append b' ' path version w.one_word,
)

request_line-Clean :
    (method path version : Bytes)
    → WellFormedLine method path version
    → Clean (request_line method path version)
request_line-Clean method path version w =
    append-Clean method (b' ' ∷ path ++ (b' ' ∷ version))
      (
        all_upper-Without 0 method w.upper (omega arith),
        all_upper-Without 13 method w.upper (omega arith),
      )
      (let rest =
          append-Clean path (b' ' ∷ version) w.clean
            ((grind arith, w.clean_version.0), (grind arith, w.clean_version.1)) in
        ((grind arith, rest.0), (grind arith, rest.1)))

-- A request that is written out, with a method of capitals, a path of one word, a version that starts with
-- HTTP/ and at most 20 headers `field: value`, and with any body behind it, is parsed into these parts.
pub parse_http_request-printed :
    (id method path version body : Bytes) (hs : List HttpHeader)
    → WellFormedLine method path version
    → AllWellFormed hs
    → length hs ≤ max_headers
    → parse_http_request id (request_line method path version ++ (13 ∷ 10 ∷ print_headers hs body))
      ≡ some (record {
        method = method;
        path = path;
        version = version;
        headers = hs;
        request_id = id;
      })
unfolding parse_http_request request_of
parse_http_request-printed id method path version body hs w all b =
    let clean = request_line-Clean method path version w in
    ground (
      arith,
      lines_from-line (request_line method path version) (print_headers hs body) clean.0 clean.1,
      lines_from-headers hs body all,
      parse_request_line-printed method path version w,
      parse_headers_from-lines hs [] (lines_from false body) all (omega arith),
    )
