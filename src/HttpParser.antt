-- ===== src/HttpParser.antt =====
-- include/http_parser.h and src/http_parser.c: the HTTP/1 request parser. The buffer is its `len` bytes,
-- after which there is a NUL; a pointer into it is the string that it points to.
pub mod Lines
pub mod Printed
pub mod Accepted
pub mod InPlace
mod Examples
use emme.Prelude.{
  ℕ, suc, Bool, true, false, not, if◌then◌else◌, ltb, leb, ◌==◌, ◌&&◌, ◌||◌, Option, none, some,
  ◌>>=◌, List, [], ◌∷◌, ◌++◌, Bytes, codes, has_prefix, length, drop,
}
use emme.Config.Numbers.{is_end, skip_spaces}

-- `HttpHeader`
pub record HttpHeader : Type 0 where
  pub field : Bytes
  pub value : Bytes

-- `HttpRequest`; `header_count` is the length of `headers`.
pub record HttpRequest : Type 0 where
  pub method : Bytes
  pub path : Bytes
  pub version : Bytes
  pub headers : List HttpHeader
  pub request_id : Bytes

-- MAX_HEADERS, MAX_REQUEST_LINE
abbrev pub max_headers : ℕ
max_headers = 20

abbrev pub max_request_line : ℕ
max_request_line = 2048

unfoldable pub add_byte : ℕ → List Bytes → List Bytes
add_byte c [] = []
add_byte c (l ∷ ls) = (c ∷ l) ∷ ls

-- The lines that strstr(cursor, "\r\n") finds one after the other, up to a NUL; what follows the last CRLF
-- is no line. `pending` is whether the byte before was a CR that belongs to the line unless an LF follows.
unfoldable pub lines_from : Bool → Bytes → List Bytes
lines_from pending [] = []
lines_from pending (c ∷ s) =
    let next = lines_from (c == 13) s in
    let base = if c == 13 then next else add_byte c next in
    if c == 0
    then []
    else if pending
    then (if c == 10 then [] ∷ next else add_byte 13 base)
    else base

-- strchr(text, c): what is before the byte and what is behind it.
unfoldable pub split_at : ℕ → Bytes → Option (Bytes × Bytes)
split_at c [] = none
split_at c (d ∷ s) =
    let rest = split_at c s in if d == c then some ([], s) else (do (a, b) ← rest; some (d ∷ a, b))

-- isupper of the C locale on every byte
unfoldable pub all_upper : Bytes → Bool
all_upper [] = true
all_upper (c ∷ s) = leb b'A' c && leb c b'Z' && all_upper s

-- Method, path and version of the request line
unfoldable pub parse_request_line : Bytes → Option (Bytes × Bytes × Bytes)
parse_request_line line = if ltb max_request_line (length line) then none else (do
  (method, rest) ← split_at b' ' line
  (path, version) ← split_at b' ' rest
  if is_end method || not (all_upper method) || not (has_prefix version (codes "HTTP/"))
      then none
      else some (method, path, version))

-- The loop over the header lines, which an empty line ends.
unfoldable pub parse_headers_from : List Bytes → List HttpHeader → Option (List HttpHeader)
parse_headers_from [] headers = some headers
parse_headers_from ([] ∷ ls) headers = some headers
parse_headers_from ((c ∷ l) ∷ ls) headers = do
  (field, rest) ← split_at b':' (c ∷ l)
  if leb max_headers (length headers)
      then none
      else parse_headers_from ls
          (headers ++ (record { field = field; value = skip_spaces rest } ∷ []))

-- *strchr(text, c) = '\0', where there is one
unfoldable pub clear_first : ℕ → Bytes → Bytes
clear_first c [] = []
clear_first c (d ∷ s) = let rest = clear_first c s in if d == c then 0 ∷ s else d ∷ rest

-- What the loop over the header lines has written where it does not return -1: a NUL for the CR and for the first
-- colon of each line, up to the empty line. `buffer` starts with the lines.
unfoldable pub clear_headers : List Bytes → Bytes → Bytes
clear_headers [] buffer = buffer
clear_headers ([] ∷ ls) buffer = buffer
clear_headers ((c ∷ l) ∷ ls) buffer =
    clear_first b':' (c ∷ l) ++ (0 ∷ 10 ∷ clear_headers ls (drop 2 (drop (length (c ∷ l)) buffer)))

-- The same with the request line, of which the first two spaces go as well
unfoldable pub clear_lines : List Bytes → Bytes → Bytes
clear_lines [] buffer = buffer
clear_lines (line ∷ ls) buffer =
    clear_first b' ' (clear_first b' ' line)
    ++ (0 ∷ 10 ∷ clear_headers ls (drop 2 (drop (length line) buffer)))

-- The buffer as `parse_http_request` leaves it where it returns 0: the strings of the request lie in it.
unfoldable pub parsed_buffer : Bytes → Bytes
parsed_buffer buffer = clear_lines (lines_from false buffer) buffer

unfoldable pub request_of : Bytes → List Bytes → Option HttpRequest
request_of id [] = none
request_of id (line ∷ ls) = do
  (method, path, version) ← parse_request_line line
  headers ← parse_headers_from ls []
  some (record {
    method = method;
    path = path;
    version = version;
    headers = headers;
    request_id = id;
  })

-- `parse_http_request`, with what `generate_uuid` returns; `none` is -1. What it writes into the buffer is
-- `parsed_buffer`.
unfoldable pub parse_http_request : Bytes → Bytes → Option HttpRequest
unfolding request_of
parse_http_request id buffer = request_of id (lines_from false buffer)
