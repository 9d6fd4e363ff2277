-- ===== src/HttpParser/Examples.antt =====
-- A request with one header, and the theorems on src/http_parser.c at it.
use emme.Prelude.{◌≡◌, refl, some, [], ◌∷◌, ◌++◌, Bytes, codes, has_prefix, arith}
use emme.HttpParser.{
  HttpHeader, HttpRequest, parse_http_request, lines_from, add_byte, split_at, all_upper,
  parse_request_line, parse_headers_from, request_of,
}
use emme.Config.Numbers.{skip_spaces, is_space}
use emme.HttpParser.Printed.{
  no_headers, and_header, request_line, print_headers, parse_http_request-printed,
}

abbrev host : HttpHeader
host = record { field = codes "H"; value = codes "a" }

abbrev asked : HttpRequest
asked = record {
  method = codes "GET";
  path = codes "/x";
  version = codes "HTTP/1.1";
  headers = host ∷ [];
  request_id = [];
}

abbrev sent : Bytes
sent =
    request_line (codes "GET") (codes "/x") (codes "HTTP/1.1")
    ++ (13 ∷ 10 ∷ print_headers (host ∷ []) (codes "b"))

parse_sent : parse_http_request [] sent ≡ some asked
unfolding parse_http_request request_of parse_headers_from parse_request_line all_upper split_at
    lines_from add_byte has_prefix skip_spaces is_space
parse_sent = refl

parse_http_request-printed_example : parse_http_request [] sent ≡ some asked
unfolding all_upper has_prefix is_space
parse_http_request-printed_example =
    parse_http_request-printed [] (codes "GET") (codes "/x") (codes "HTTP/1.1") (codes "b")
      (host ∷ [])
      (record {
        named = refl;
        upper = refl;
        one_word = grind arith;
        clean = grind arith;
        http = refl;
        clean_version = grind arith;
        short = omega arith;
      })
      (and_header host
        (record {
          named = refl;
          field = grind arith;
          no_colon = grind arith;
          value = grind arith;
          no_space = refl;
        })
        no_headers)
      (omega arith)
