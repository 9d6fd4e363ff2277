-- ===== src/HttpParser/Accepted.antt =====
-- What a request that the parser of src/http_parser.c accepts is like.
use emme.Prelude.{
  ◌≤◌, ◌≡◌, Bool, true, false, not, if◌then◌else◌, ltb, leb, ◌||◌, none, some, List, [], ◌∷◌, Bytes,
  codes, has_prefix, length, length-append, arith, leb-false, Always, result, no_result,
  Always-intro, Always-elim, Always-bind, Always-unless,
}
use emme.Config.Numbers.{is_end, skip_spaces}
use emme.HttpParser.{
  HttpHeader, HttpRequest, lines_from, split_at, all_upper, parse_request_line, parse_headers_from,
  request_of, parse_http_request, max_headers, max_request_line,
}
use emme.HttpParser.Lines.{Without, split_at_sound}

-- A method of capitals, a path without a space, a version that starts with HTTP/, no more headers than the
-- array holds
pub record Accepted (r : HttpRequest) : Type 0 where
  pub method : (is_end r.method ≡ false) × (all_upper r.method ≡ true)
  pub path : Without b' ' r.path
  pub version : has_prefix r.version (codes "HTTP/") ≡ true
  pub headers : length r.headers ≤ 20

abbrev Line : Bytes × Bytes × Bytes → Type 0
Line (method, path, version) =
    (is_end method ≡ false)
    × (all_upper method ≡ true)
    × Without b' ' path
    × (has_prefix version (codes "HTTP/") ≡ true)

abbrev is_bad : Bytes → Bytes → Bool
is_bad method version =
    is_end method || not (all_upper method) || not (has_prefix version (codes "HTTP/"))

checked-Line :
    (method path version : Bytes)
    → Without b' ' path
    → Always Line (if is_bad method version then none else some (method, path, version))
checked-Line method path version w =
    Always-unless (is_bad method version) _
      (λ good. result (method, path, version) (good_line good))
  where
    good_line : is_bad method version ≡ false → Line (method, path, version)
    good_line good = (ground arith, ground arith, w, ground arith)

parse_request_line-Line : (line : Bytes) → Always Line (parse_request_line line)
unfolding parse_request_line
parse_request_line-Line line = Always-unless (ltb max_request_line (length line)) _ (λ e.
    Always-bind _ _ (Always-intro {P = λ p. Unit {0}} (split_at b' ' line) (λ p q. tt))
      (λ (method, rest) t.
        Always-bind _ _
          (Always-intro {P = λ p. Without b' ' p.0} (split_at b' ' rest)
            (λ (a, b) q. (split_at_sound b' ' rest a b q).1))
          (λ (path, version) w. checked-Line method path version w)))

parse_headers_from-bound :
    (ls : List Bytes) (before : List HttpHeader)
    → length before ≤ 20
    → Always (λ hs. length hs ≤ 20) (parse_headers_from ls before)
unfolding parse_headers_from
parse_headers_from-bound [] before h = result before h
parse_headers_from-bound ([] ∷ ls) before h = result before h
parse_headers_from-bound ((c ∷ l) ∷ ls) before h =
    Always-bind _ _ (Always-intro {P = λ p. Unit {0}} (split_at b':' (c ∷ l)) (λ p q. tt))
      (λ (field, rest) t. Always-unless (leb max_headers (length before)) _ (λ room.
        parse_headers_from-bound ls _ (
          omega (
            arith,
            leb-false max_headers (length before) room,
            length-append before (record { field = field; value = skip_spaces rest } ∷ []),
          ))))

request_of-Accepted : (id : Bytes) (ls : List Bytes) → Always Accepted (request_of id ls)
unfolding request_of
request_of-Accepted id [] = no_result
request_of-Accepted id (line ∷ ls) =
    Always-bind _ _ (parse_request_line-Line line) (λ (method, path, version) l.
      Always-bind _ _ (parse_headers_from-bound ls [] (omega arith))
        (λ hs b. result _ (record { method = (l.0, l.1); path = l.2; version = l.3; headers = b })))

-- Whatever bytes it is given, a request that `parse_http_request` accepts has a method of one capital at
-- least and nothing else, a path without a space, a version that starts with HTTP/, and at most 20 headers.
pub parse_http_request-Accepted :
    (id buffer : Bytes) (r : HttpRequest) → parse_http_request id buffer ≡ some r → Accepted r
unfolding parse_http_request
parse_http_request-Accepted id buffer r h =
    Always-elim _ r (request_of-Accepted id (lines_from false buffer)) h
