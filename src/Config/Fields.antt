-- ===== src/Config/Fields.antt =====
-- The readers of single fields in src/config.c. A reader returns `none` for -1; where the caller goes on
-- after -1, what the reader has left in its target is returned too.
use emme.Prelude.{
  ℕ, ◌-◌, Bool, true, false, if◌then◌else◌, leb, ◌||◌, Option, none, some, ℤ, Bytes, codes, str_eq,
  str_case_eq, length, take,
}
use emme.Config.Yaml.{Node, scalar, sequence, mapping, find_yaml_node}
use emme.Config.Numbers.{parse_int_in_range, parse_size_in_range, parse_int}

-- `get_yaml_string` into a buffer of `size` bytes: whether it returns 0, and the buffer. snprintf has
-- written the part that fits also where the value is too long.
unfoldable pub get_yaml_string : Node → ℕ → Bytes → Bool × Bytes
get_yaml_string (scalar value) size old =
    if leb size (length value) then (false, take (size - 1) value) else (true, value)
get_yaml_string (sequence items) size old = (false, old)
get_yaml_string (mapping pairs) size old = (false, old)

-- `get_yaml_int`
unfoldable pub get_yaml_int : Node → Option ℤ
get_yaml_int (scalar value) = parse_int value
get_yaml_int (sequence items) = none
get_yaml_int (mapping pairs) = none

-- `get_yaml_int_in_range`
unfoldable pub get_yaml_int_in_range : Node → ℤ → ℤ → Option ℤ
get_yaml_int_in_range (scalar value) low high = parse_int_in_range value low high
get_yaml_int_in_range (sequence items) low high = none
get_yaml_int_in_range (mapping pairs) low high = none

-- `get_yaml_size_in_range`
unfoldable pub get_yaml_size_in_range : Node → ℕ → ℕ → Option ℕ
get_yaml_size_in_range (scalar value) low high = parse_size_in_range value low high
get_yaml_size_in_range (sequence items) low high = none
get_yaml_size_in_range (mapping pairs) low high = none

parse_bool : Bytes → Option Bool
parse_bool value =
    if str_case_eq value (codes "true")
      || str_eq value (codes "1")
      || str_case_eq value (codes "yes")
    then some true
    else if str_case_eq value (codes "false")
        || str_eq value (codes "0")
        || str_case_eq value (codes "no")
    then some false
    else none

-- `get_yaml_bool`
unfoldable pub get_yaml_bool : Node → Option Bool
unfolding parse_bool
get_yaml_bool (scalar value) = parse_bool value
get_yaml_bool (sequence items) = none
get_yaml_bool (mapping pairs) = none

-- PARSE_FIELD over `get_yaml_int_in_range` and `get_yaml_size_in_range`: an absent field keeps its value.
unfoldable pub int_of : Option Node → ℤ → ℤ → ℤ → Option ℤ
int_of none low high old = some old
int_of (some n) low high old = get_yaml_int_in_range n low high

unfoldable pub parse_int_field : Node → Bytes → ℤ → ℤ → ℤ → Option ℤ
unfolding int_of
parse_int_field node name low high old = int_of (find_yaml_node node name) low high old

unfoldable pub size_of : Option Node → ℕ → ℕ → ℕ → Option ℕ
size_of none low high old = some old
size_of (some n) low high old = get_yaml_size_in_range n low high

unfoldable pub parse_size_field : Node → Bytes → ℕ → ℕ → ℕ → Option ℕ
unfolding size_of
parse_size_field node name low high old = size_of (find_yaml_node node name) low high old

-- A string whose reader succeeded
abbrev pub if_read : Bool × Bytes → Option Bytes
if_read (true, s) = some s
if_read (false, s) = none

-- PARSE_STRING
unfoldable pub string_of : Option Node → ℕ → Bytes → Option Bytes
string_of none size old = some old
string_of (some n) size old = if_read (get_yaml_string n size old)

unfoldable pub parse_string_field : Node → Bytes → ℕ → Bytes → Option Bytes
unfolding string_of
parse_string_field node name size old = string_of (find_yaml_node node name) size old

-- PARSE_BOOL
unfoldable pub bool_of : Option Node → Bool → Option Bool
bool_of none old = some old
bool_of (some n) old = get_yaml_bool n

unfoldable pub parse_bool_field : Node → Bytes → Bool → Option Bool
unfolding bool_of
parse_bool_field node name old = bool_of (find_yaml_node node name) old

-- The same where a reader that fails leaves the field as it was, as in the nested sections.
abbrev pub or_else {ℓ} : {A : Type ℓ} → Option A → A → A
or_else none old = old
or_else (some a) old = a

unfoldable pub read_bool : Node → Bytes → Bool → Bool
unfolding parse_bool_field
read_bool node name old = or_else (parse_bool_field node name old) old

unfoldable pub lax_int_of : Option Node → ℤ → ℤ
lax_int_of none old = old
lax_int_of (some n) old = or_else (get_yaml_int n) old

unfoldable pub read_int : Node → Bytes → ℤ → ℤ
unfolding lax_int_of
read_int node name old = lax_int_of (find_yaml_node node name) old

unfoldable pub lax_string_of : Option Node → ℕ → Bytes → Bytes
lax_string_of none size old = old
lax_string_of (some n) size old = (get_yaml_string n size old).1

unfoldable pub read_string : Node → Bytes → ℕ → Bytes → Bytes
unfolding lax_string_of
read_string node name size old = lax_string_of (find_yaml_node node name) size old
