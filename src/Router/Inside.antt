-- ===== src/Router/Inside.antt =====
-- The files that `lookup_static_file` of src/router.c hands out, against the document root.
use mathlib.Core.Path.{subst}
use emme.Prelude.{
  ℕ, ◌<◌, ◌≡◌, ◌≢◌, refl, true, false, ◌&&◌, some, List, [], ◌∷◌, ◌++◌, Bytes, codes, str_eq_sound,
  has_prefix, length, drop, arith, Option-cases, Bool-cases, inl, inr,
}
use emme.Config.Types.{ServerConfig, Route}
use emme.Router.Choice.{find_route, matches, is_technology}
use emme.Router.Files.{
  FileSystem, ready, lookup_static_file, lookup_route, lookup_in, opened, checked_file, sized,
  is_inside, starts_component, file_path, root_real_of,
}

pub has_prefix_sound : (s p : Bytes) → has_prefix s p ≡ true → s ≡ p ++ drop (length p) s
unfolding has_prefix
has_prefix_sound s [] h = refl
has_prefix_sound [] (c ∷ p) h = ground arith
has_prefix_sound (d ∷ s) (c ∷ p) h = ground (arith, has_prefix_sound s p)

-- The first route of a technology whose path the request's path starts with
pub data First (technology path : Bytes) : List Route → Route → Type 0 where
  this :
      {rs : List Route} (r : Route)
      → r.technology ≡ technology
      → (rest : Bytes) → path ≡ r.path ++ rest
      → First technology path (r ∷ rs) r
  later :
      {rs : List Route} (q r : Route)
      → (is_technology technology q && matches path q) ≡ false
      → First technology path rs r
      → First technology path (q ∷ rs) r

pub find_route-First :
    (technology : Bytes) (rs : List Route) (path : Bytes) (r : Route)
    → find_route technology rs path ≡ some r
    → First technology path rs r
unfolding find_route
find_route-First technology [] path r h = absurd (ground arith)
find_route-First technology (q ∷ rs) path r h =
    elim (Bool-cases (is_technology technology q && matches path q)) [
      | inl chosen ↦ subst (First technology path (q ∷ rs)) (ground arith) (
          this q (str_eq_sound _ _ (ground arith)) (drop (length q.path) path)
            (has_prefix_sound path q.path (ground arith)))
      | inr passed ↦ later q r passed (find_route-First technology rs path r (ground arith))
    ]

-- `file` is the directory `root` or lies below it.
abbrev pub Below : Bytes → Bytes → Type 0
Below root file = (rest : Bytes) × (file ≡ root ++ rest) × (starts_component rest ≡ true)

is_inside-Below : (root file : Bytes) → is_inside root file ≡ true → Below root file
unfolding is_inside
is_inside-Below root file h =
    (drop (length root) file, has_prefix_sound file root (ground arith), ground arith)

-- What a lookup that finds a file has found
pub record Found (fs : FileSystem) (r : Route) (file : Bytes) (size : ℕ) : Type 0 where
  pub root : Bytes
  pub root_real : root_real_of fs r ≡ some root
  pub real : Bytes
  pub resolved : fs.realpath file ≡ some real
  pub inside : Below root real
  pub is_open : fs.opens file ≡ true
  pub fits : length file < 512
  pub end : fs.end_of file ≡ some size

-- The same for the file that the route's root and the path name together
lookup_with :
    (fs : FileSystem) (r : Route) (path root real file type : Bytes) (size : ℕ)
    → root_real_of fs r ≡ some root
    → fs.realpath (file_path r.document_root (drop (length r.path) path)) ≡ some real
    → lookup_in fs r path ≡ ready file size type
    → Found fs r file size
unfolding lookup_in opened checked_file sized
lookup_with fs r path root real file type size e f h =
    let name = file_path r.document_root (drop (length r.path) path) in
    elim (Option-cases (fs.end_of name)) [
      | inl n ↦ absurd (ground (arith, e, f, n))
      | inr (end, g) ↦ record {
        root = root;
        root_real = e;
        real = real;
        resolved = ground (arith, e, f, g);
        inside = is_inside-Below root real (ground (arith, e, f, g));
        is_open = ground (arith, e, f, g);
        fits = ground (arith, e, f, g);
        end = ground (arith, e, f, g);
      }
    ]

lookup_in-Found :
    (fs : FileSystem) (r : Route) (path file type : Bytes) (size : ℕ)
    → lookup_in fs r path ≡ ready file size type
    → Found fs r file size
unfolding lookup_in opened checked_file
lookup_in-Found fs r path file type size h = elim (Option-cases (root_real_of fs r)) [
  | inl n ↦ absurd (ground (arith, n))
  | inr (root, e) ↦
      elim (Option-cases (fs.realpath (file_path r.document_root (drop (length r.path) path)))) [
        | inl n ↦ absurd (ground (arith, n, e))
        | inr (real, f) ↦ lookup_with fs r path root real file type size e f h
      ]
]

-- A file that `lookup_static_file` hands out belongs to the first static route whose path the request
-- starts with; it is open, its name fits into its buffer, and its resolved name is the resolved document
-- root or lies below it, whatever the request's path contains.
pub lookup_static_file-Found :
    (fs : FileSystem) (c : ServerConfig) (path file type : Bytes) (size : ℕ)
    → lookup_static_file fs c path ≡ ready file size type
    → (r : Route) × First (codes "static") path c.routes r × Found fs r file size
unfolding lookup_static_file lookup_route
lookup_static_file-Found fs c path file type size h =
    elim (Option-cases (find_route (codes "static") c.routes path)) [
      | inl n ↦ absurd (ground (arith, n))
      | inr (r, e) ↦ (
        r,
        find_route-First _ _ path r e,
        lookup_in-Found fs r path file type size (ground (arith, e)),
      )
    ]

-- Under a document root that resolves to `/` no file is handed out but the root itself: the test wants a
-- slash behind the root, and there is none where the root is the slash.
pub is_inside_slash :
    (fs : FileSystem) (r : Route) (path file type : Bytes) (size c : ℕ) (rest : Bytes)
    → root_real_of fs r ≡ some (codes "/")
    → c ≢ b'/'
    → fs.realpath (file_path r.document_root (drop (length r.path) path)) ≡ some (b'/' ∷ c ∷ rest)
    → lookup_in fs r path ≢ ready file size type
unfolding lookup_in opened checked_file is_inside starts_component has_prefix
is_inside_slash fs r path file type size c rest e n f h = ground (arith, e, f, h)
