-- ===== src/Server/Http1/Examples.antt =====
-- A connection on which a client sends two requests at once, and the theorems on src/server.c at it.
use emme.Prelude.{
  ℕ, ◌≡◌, ◌<◌, refl, true, some, [], ◌∷◌, ◌++◌, Bytes, codes, length, take, arith, has_prefix, pos,
  replicate, length-replicate,
}
use emme.Config.Types.{config_defaults, SecurityHeadersConfig}
use emme.Http2Response.{buffer_size}
use emme.HttpParser.{
  HttpRequest, parse_http_request, request_of, parse_request_line, parse_headers_from, lines_from,
  add_byte, split_at, all_upper, parsed_buffer, clear_lines, clear_headers, clear_first,
}
use emme.HttpParser.InPlace.{Holds}
use emme.HttpParser.Accepted.{Accepted}
use emme.Router.Header.{crlf}
use emme.Server.Http1.{
  Read, Head, complete, routed, read_head, reply_to, refuse, find_header_end, header_end_from,
  timeout_head, append_global, add_global_security_headers,
}
use emme.Server.Http1.Reads.{AllGive, all_read, read_head-Ends}
use emme.Server.Http1.Decided.{taken, reply_to-routed}
use emme.Server.Http1.HeaderEnd.{FirstBlank, find_header_end-FirstBlank}

-- An HTTP/1 client that sends two requests at once
abbrev request_line : Bytes
request_line = codes "GET /a HTTP/1.1"

abbrev two_requests : Bytes
two_requests = request_line ++ ((crlf ++ crlf) ++ codes "GET /b HTTP/1.1\r\n\r\n")

-- The buffer behind the parser: the second request is untouched.
abbrev left_buffer : Bytes
left_buffer =
    codes "GET"
    ++ (0 ∷ codes "/a"
        ++ (0 ∷ codes "HTTP/1.1" ++ (0 ∷ 10 ∷ crlf ++ codes "GET /b HTTP/1.1\r\n\r\n")))

abbrev first_request : HttpRequest
first_request = record {
  method = codes "GET";
  path = codes "/a";
  version = codes "HTTP/1.1";
  headers = [];
  request_id = codes "id";
}

abbrev one_read : Read
one_read = record { bytes = some two_requests; elapsed_ms = 3 }

abbrev one_header : SecurityHeadersConfig
one_header = record {
  enabled = true;
  headers = record { name = codes "A"; value = codes "b" } ∷ [];
}

one_refused : refuse timeout_head one_header ≡ some (timeout_head ++ (codes "A: b\r\n" ++ crlf))
unfolding refuse add_global_security_headers append_global
one_refused = refl

first_routed :
    reply_to config_defaults (codes "id") (complete two_requests) ≡ routed first_request left_buffer
unfolding reply_to parsed_buffer clear_lines clear_headers clear_first parse_http_request request_of
    parse_request_line parse_headers_from lines_from add_byte split_at all_upper has_prefix
first_routed = refl

read_head-Ends_example :
    (h : Head) × (read_head (pos 30000) (replicate 32766 65) (one_read ∷ []) ≡ some h)
read_head-Ends_example =
    read_head-Ends (pos 30000) (replicate 32766 65) (one_read ∷ [])
      (AllGive.one_read two_requests 3 (omega arith) all_read)
      (omega (arith, length-replicate {A = ℕ} 32766 65))

find_header_end-FirstBlank_example : FirstBlank two_requests (find_header_end two_requests)
find_header_end-FirstBlank_example = find_header_end-FirstBlank two_requests

one_read_head : read_head (pos 30000) [] (one_read ∷ []) ≡ some (complete two_requests)
unfolding read_head find_header_end header_end_from has_prefix
one_read_head = refl

reply_to-routed_example :
    (n : ℕ) × (e : ℕ) × (left_buffer ≡ parsed_buffer (taken [] (take n (one_read ∷ []))))
    × (find_header_end (taken [] (take n (one_read ∷ []))) ≡ some e)
    × (length left_buffer < buffer_size)
    × Holds left_buffer first_request
    × Accepted first_request
unfolding config_defaults
reply_to-routed_example =
    reply_to-routed config_defaults (codes "id") (one_read ∷ []) (complete two_requests)
      first_request left_buffer one_read_head first_routed
