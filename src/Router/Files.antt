-- ===== src/Router/Files.antt =====
-- `lookup_static_file` of src/router.c.
use emme.Prelude.{
  ℕ, Bool, true, false, if◌then◌else◌, leb, ◌==◌, ◌||◌, Option, none, some, [], ◌∷◌, ◌++◌, Bytes,
  codes, str_eq, has_prefix, length, take, drop,
}
use emme.Config.Numbers.{is_end}
use emme.Config.Types.{ServerConfig, Route}
use emme.Router.Choice.{find_route}

-- What the system's calls return: realpath, whether open succeeds, and the end that lseek finds.
pub record FileSystem : Type 0 where
  pub realpath : Bytes → Option Bytes
  pub opens : Bytes → Bool
  pub end_of : Bytes → Option ℕ

-- `StaticLookupResult`, with the path that was opened, its size and its content type
pub data StaticLookup : Type 0 where
  lookup_error no_route not_found forbidden : StaticLookup
  ready : Bytes → ℕ → Bytes → StaticLookup

-- FILEPATH_BUFFER_SIZE
abbrev pub filepath_size : ℕ
filepath_size = 512

-- strrchr(path, '.'): the text from the last dot on
unfoldable pub last_dot : Bytes → Option Bytes
last_dot [] = none
last_dot (c ∷ s) = elim (last_dot s) [
  | some d ↦ some d
  | none ↦ if c == b'.' then some (c ∷ s) else none
]

unfoldable pub type_of : Bytes → Bytes
type_of ext =
    if str_eq ext (codes ".html") || str_eq ext (codes ".htm")
    then codes "text/html"
    else if str_eq ext (codes ".css")
    then codes "text/css"
    else if str_eq ext (codes ".js")
    then codes "application/javascript"
    else if str_eq ext (codes ".json")
    then codes "application/json"
    else if str_eq ext (codes ".txt")
    then codes "text/plain"
    else if str_eq ext (codes ".png")
    then codes "image/png"
    else if str_eq ext (codes ".jpg") || str_eq ext (codes ".jpeg")
    then codes "image/jpeg"
    else codes "application/octet-stream"

-- `guess_content_type`
unfoldable pub guess_content_type : Bytes → Bytes
unfolding type_of
guess_content_type path = elim (last_dot path) [
  | none ↦ codes "application/octet-stream"
  | some ext ↦ type_of ext
]

unfoldable pub ends_with_slash : Bytes → Bool
ends_with_slash [] = false
ends_with_slash (c ∷ []) = c == b'/'
ends_with_slash (c ∷ d ∷ s) = ends_with_slash (d ∷ s)

-- The root and what the path has behind the route's prefix
unfoldable pub file_path : Bytes → Bytes → Bytes
unfolding ends_with_slash
file_path root rest = if ends_with_slash root then root ++ rest else root ++ (b'/' ∷ rest)

-- `root_real`
unfoldable pub root_real_of : FileSystem → Route → Option Bytes
root_real_of fs r =
    if r.document_root_resolved
    then some (take 4095 r.document_root_real)
    else fs.realpath r.document_root

-- `root` is a prefix of the path, which ends there or goes on with a slash.
unfoldable pub starts_component : Bytes → Bool
starts_component [] = true
starts_component (c ∷ s) = c == b'/'

unfoldable pub is_inside : Bytes → Bytes → Bool
is_inside root file =
    if has_prefix file root then starts_component (drop (length root) file) else false

unfoldable pub sized : Option ℕ → Bytes → Bytes → StaticLookup
sized none path file = lookup_error
sized (some size) path file = ready path size (guess_content_type file)

unfoldable pub checked_file : FileSystem → Bytes → Bytes → Option Bytes → StaticLookup
checked_file fs root path none = not_found
checked_file fs root path (some file) =
    if is_inside root file then sized (fs.end_of path) path file else forbidden

unfoldable pub opened : FileSystem → Bytes → Option Bytes → StaticLookup
opened fs path none = lookup_error
opened fs path (some root) =
    if fs.opens path then checked_file fs root path (fs.realpath path) else not_found

-- The body of the loop for the route that matches
unfoldable pub lookup_in : FileSystem → Route → Bytes → StaticLookup
unfolding opened checked_file sized
lookup_in fs r path =
    let file = file_path r.document_root (drop (length r.path) path) in
    if is_end r.document_root || leb filepath_size (length file)
    then lookup_error
    else opened fs file (root_real_of fs r)

unfoldable pub lookup_route : FileSystem → Option Route → Bytes → StaticLookup
lookup_route fs none path = no_route
lookup_route fs (some r) path = lookup_in fs r path

-- `lookup_static_file`
unfoldable pub lookup_static_file : FileSystem → ServerConfig → Bytes → StaticLookup
unfolding lookup_route
lookup_static_file fs c path = lookup_route fs (find_route (codes "static") c.routes path) path
