-- ===== src/Config/Routes/Buffers.antt =====
-- The buffers that src/config.c reads the strings of a route into.
use emme.Prelude.{
  ℕ, suc, ◌-◌, length-take, ◌≤◌, ◌<◌, ◌≡◌, ltb, Option, none, some, List, [], ◌∷◌, ◌++◌, Bytes,
  codes, length, length-append, arith, Bool-cases, ltb→lt, inl, inr, Always, result, no_result,
  Always-intro, Always-if,
}
use emme.Config.Yaml.{
  Node, scalar, sequence, mapping, Nodes, no_items, item, find_yaml_node, is_mapping,
}
use emme.Config.Types.{SecurityHeader, CorsConfig}
use emme.Config.Nested.{
  parse_security_headers_config, parse_health_check_config, health_check_of, parse_cors_config,
  cors_of, mapping_of, text_of, header_from,
}
use emme.Config.Routes.{zero_health_check, zero_cors}
use emme.Config.Nested.{
  parse_headers, parse_header, append_header, security_headers_of, headers_of, max_security_headers,
}
use emme.Config.Fields.{
  get_yaml_string, parse_string_field, string_of, if_read, read_string, lax_string_of,
}
use emme.Config.Routes.{required_of}

-- `n` bytes and the NUL fit into the buffer of `size` bytes.
abbrev pub Fit : Bytes → ℕ → Type 0
Fit s size = suc (length s) ≤ size

-- Headers whose names and values fit into the buffers of `security_header_t`
pub data FitHeaders : List SecurityHeader → Type 0 where
  no_headers : FitHeaders []
  one_header :
      {hs : List SecurityHeader} (x : SecurityHeader)
      → Fit x.name 64
      → Fit x.value 256
      → FitHeaders hs
      → FitHeaders (x ∷ hs)

pub record FitCors (c : CorsConfig) : Type 0 where
  pub origin : Fit c.allow_origin 256
  pub methods : Fit c.allow_methods 128
  pub names : Fit c.allow_headers 256

get_yaml_string-Fit :
    (n : Node) (size : ℕ) (s : Bytes) → if_read (get_yaml_string n size []) ≡ some s → Fit s size
unfolding get_yaml_string
get_yaml_string-Fit (scalar value) size s h = ground arith
get_yaml_string-Fit (sequence items) size s h = ground arith
get_yaml_string-Fit (mapping pairs) size s h = ground arith

pub required-Fit : (o : Option Node) (size : ℕ) → Always (λ s. Fit s size) (required_of o size)
unfolding required_of
required-Fit none size = no_result
required-Fit (some n) size = Always-intro _ (get_yaml_string-Fit n size)

string_of-Fit :
    (o : Option Node) (size : ℕ) → 1 ≤ size → Always (λ s. Fit s size) (string_of o size [])
unfolding string_of
string_of-Fit none size h = result [] h
string_of-Fit (some n) size h = Always-intro _ (get_yaml_string-Fit n size)

pub parse_string_field-Fit :
    (node : Node) (name : Bytes) (size : ℕ)
    → 1 ≤ size
    → Always (λ s. Fit s size) (parse_string_field node name size [])
unfolding parse_string_field
parse_string_field-Fit node name size h = string_of-Fit _ size h

lax_string_of-Fit :
    (o : Option Node) (size : ℕ) (old : Bytes)
    → 1 ≤ size
    → Fit old size
    → Fit (lax_string_of o size old) size
unfolding lax_string_of get_yaml_string
lax_string_of-Fit none size old h f = f
lax_string_of-Fit (some (scalar value)) size old h f =
    ground (arith, h, length-take (size - 1) value)
lax_string_of-Fit (some (sequence items)) size old h f = f
lax_string_of-Fit (some (mapping pairs)) size old h f = f

read_string-Fit :
    (node : Node) (name : Bytes) (size : ℕ) (old : Bytes)
    → 1 ≤ size
    → Fit old size
    → Fit (read_string node name size old) size
unfolding read_string
read_string-Fit node name size old h f = lax_string_of-Fit _ size old h f

pub health_check-Fit :
    (o : Option Node) → Fit (parse_health_check_config o zero_health_check).path 128
unfolding parse_health_check_config health_check_of
health_check-Fit o = in_mapping (mapping_of o)
  where
    in_mapping : (m : Option Node) → Fit (health_check_of m zero_health_check).path 128
    in_mapping none = omega arith
    in_mapping (some node) = read_string-Fit node _ 128 _ (omega arith) (omega arith)

pub cors-FitCors : (o : Option Node) → FitCors (parse_cors_config o zero_cors)
unfolding parse_cors_config cors_of
cors-FitCors o = in_mapping (mapping_of o)
  where
    in_mapping : (m : Option Node) → FitCors (cors_of m zero_cors)
    in_mapping none = record { origin = omega arith; methods = omega arith; names = omega arith }
    in_mapping (some node) = record {
      origin = read_string-Fit node _ 256 _ (omega arith) (omega arith);
      methods = read_string-Fit node _ 128 _ (omega arith) (omega arith);
      names = read_string-Fit node _ 256 _ (omega arith) (omega arith);
    }

append-FitHeaders :
    (hs : List SecurityHeader) (x : SecurityHeader)
    → FitHeaders hs
    → Fit x.name 64
    → Fit x.value 256
    → FitHeaders (hs ++ (x ∷ []))
append-FitHeaders _ x no_headers n v = one_header x n v no_headers
append-FitHeaders _ x (one_header {hs} y m w more) n v =
    one_header y m w (append-FitHeaders hs x more n v)

text_of-Fit : (o : Option Node) (size : ℕ) → Always (λ s. Fit s size) (text_of o size)
unfolding text_of
text_of-Fit none size = no_result
text_of-Fit (some n) size = Always-intro _ (get_yaml_string-Fit n size)

abbrev FitHeader : SecurityHeader → Type 0
FitHeader x = Fit x.name 64 × Fit x.value 256

header_from-Fit :
    (n v : Option Bytes)
    → Always (λ s. Fit s 64) n
    → Always (λ s. Fit s 256) v
    → Always FitHeader (header_from n v)
unfolding header_from
header_from-Fit _ _ (result n f) (result v g) = result _ (f, g)
header_from-Fit _ _ (result n f) no_result = no_result
header_from-Fit _ _ no_result g = no_result

parse_header-Fit : (node : Node) → Always FitHeader (parse_header node)
unfolding parse_header
parse_header-Fit node =
    Always-if (is_mapping node) _ (λ e. header_from-Fit _ _ (text_of-Fit _ 64) (text_of-Fit _ 256))

-- At most ten headers, each with its name and value in their buffers
abbrev pub FitTen : List SecurityHeader → Type 0
FitTen hs = (length hs ≤ 10) × FitHeaders hs

append_header_fit :
    (o : Option SecurityHeader) (headers : List SecurityHeader)
    → Always FitHeader o
    → length headers < 10
    → FitHeaders headers
    → FitTen (append_header o headers)
unfolding append_header
append_header_fit _ headers no_result h f = (omega (arith, h), f)
append_header_fit _ headers (result x (n, v)) h f =
    (omega (arith, h, length-append headers (x ∷ [])), append-FitHeaders headers x f n v)

parse_headers_fit :
    (items : Nodes) (headers : List SecurityHeader)
    → FitTen headers
    → FitTen (parse_headers items headers)
unfolding parse_headers
parse_headers_fit no_items headers h = h
parse_headers_fit (item node rest) headers h =
    elim (Bool-cases (ltb (length headers) max_security_headers)) [
      | inl lt ↦ rw lt (
          parse_headers_fit rest (append_header (parse_header node) headers) (
            append_header_fit (parse_header node) headers (parse_header-Fit node)
              (ltb→lt (length headers) 10 lt) h.1))
      | inr ge ↦ rw ge h
    ]

headers_of_fit : (o : Option Node) → FitTen (headers_of o)
unfolding headers_of
headers_of_fit none = (omega arith, no_headers)
headers_of_fit (some (scalar value)) = (omega arith, no_headers)
headers_of_fit (some (sequence items)) = parse_headers_fit items [] (omega arith, no_headers)
headers_of_fit (some (mapping pairs)) = (omega arith, no_headers)

pub security_headers_fit : (o : Option Node) → FitTen (parse_security_headers_config o).headers
unfolding parse_security_headers_config security_headers_of headers_of
security_headers_fit none = (omega arith, no_headers)
security_headers_fit (some (scalar value)) = (omega arith, no_headers)
security_headers_fit (some (sequence items)) = (omega arith, no_headers)
security_headers_fit (some (mapping pairs)) =
    headers_of_fit (find_yaml_node (mapping pairs) (codes "headers"))
