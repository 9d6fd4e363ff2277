-- ===== src/Server/Http2/Pseudo.antt =====
-- What the headers of a request on an HTTP/2 stream of src/server.c leave in its state.
use emme.Prelude.{
  ℕ, ◌+◌, ◌≡◌, refl, ap, sym, Bool, true, not, if◌then◌else◌, ◌||◌, Option, none, some, List, [],
  ◌∷◌, Bytes, codes, str_eq, str_eq_sound, has_prefix, arith, inl, inr, Bool-cases,
}
use mathlib.Core.Path.{subst}
use emme.Config.Types.{SecurityHeader}
use emme.Server.Http2.{StreamData, H2Io, new_stream, set_pseudo, on_header}

-- The headers of a request, one callback after the other, at these times
unfoldable pub on_headers :
    Bytes → List (SecurityHeader × ℕ) → H2Io × Option StreamData → H2Io × Option StreamData
on_headers id [] s = s
on_headers id ((h, now) ∷ hs) s = on_headers id hs (on_header id now h.name h.value s)

-- The last value under a name
abbrev pub last_value : Bytes → Option Bytes → List (SecurityHeader × ℕ) → Option Bytes
last_value name before [] = before
last_value name before ((h, now) ∷ hs) =
    last_value name (if str_eq h.name name then some h.value else before) hs

abbrev pub count_named : Bytes → List (SecurityHeader × ℕ) → ℕ
count_named name [] = 0
count_named name ((h, now) ∷ hs) = (if str_eq h.name name then 1 else 0) + count_named name hs

-- A name that is one of the four pseudo headers of a request, or starts with no colon
abbrev pub is_proper : Bytes → Bool
is_proper name =
    str_eq name (codes ":method")
    || (str_eq name (codes ":path")
        || (str_eq name (codes ":scheme")
            || (str_eq name (codes ":authority") || not (has_prefix name (codes ":")))))

pub data AllProper : List (SecurityHeader × ℕ) → Type 0 where
  none_left : AllProper []
  one_proper :
      {hs : List (SecurityHeader × ℕ)} (h : SecurityHeader) (now : ℕ)
      → is_proper h.name ≡ true
      → AllProper hs
      → AllProper ((h, now) ∷ hs)

set_pseudo-proper :
    (name value : Bytes) (d : StreamData)
    → is_proper name ≡ true
    → set_pseudo name value d ≡ record d {
      method = if str_eq name (codes ":method") then some value else d.method;
      path = if str_eq name (codes ":path") then some value else d.path;
    }
unfolding set_pseudo str_eq has_prefix
set_pseudo-proper name value d h = elim (Bool-cases (str_eq name (codes ":method"))) [
  | inl e ↦ rw (str_eq_sound name (codes ":method") e) refl
  | inr n1 ↦ elim (Bool-cases (str_eq name (codes ":path"))) [
    | inl e ↦ rw (str_eq_sound name (codes ":path") e) refl
    | inr n2 ↦ elim (Bool-cases (str_eq name (codes ":scheme"))) [
      | inl e ↦ rw (str_eq_sound name (codes ":scheme") e) refl
      | inr n3 ↦ elim (Bool-cases (str_eq name (codes ":authority"))) [
        | inl e ↦ rw (str_eq_sound name (codes ":authority") e) refl
        | inr n4 ↦ ground (arith, h, n1, n2, n3, n4)
      ]
    ]
  ]
]

abbrev started : Bytes → ℕ → H2Io → H2Io
started name now io =
    if str_eq name (codes ":method")
    then record io { request_count = io.request_count + 1; request_start = now }
    else io

abbrev named : Bytes → Bytes → StreamData → StreamData
named name value d = record d {
  method = if str_eq name (codes ":method") then some value else d.method;
  path = if str_eq name (codes ":path") then some value else d.path;
}

on_header-proper :
    (id name value : Bytes) (now : ℕ) (io : H2Io) (d : StreamData)
    → is_proper name ≡ true
    → on_header id now name value (io, some d) ≡ (started name now io, some (named name value d))
unfolding on_header
on_header-proper id name value now io d h =
    ap (λ x. (started name now io, some x)) (set_pseudo-proper name value d h)

-- The state of a stream from its first header on
collected :
    (id : Bytes) (hs : List (SecurityHeader × ℕ)) (io : H2Io) (d : StreamData)
    → AllProper hs
    → let (io', d') = on_headers id hs (io, some d) in
      (d'
        ≡ some (record d {
          method = last_value (codes ":method") d.method hs;
          path = last_value (codes ":path") d.path hs;
        }))
      × (io'.request_count ≡ count_named (codes ":method") hs + io.request_count)
unfolding on_headers
collected id [] io d none_left = (refl, omega arith)
collected id ((h, now) ∷ hs) io d (one_proper _ _ p more) =
    let (rest, counted) = collected id hs (started h.name now io) (named h.name h.value d) more in
    let all = (h, now) ∷ hs in
    let Left : H2Io × Option StreamData → Type 0 = λ (s : H2Io × Option StreamData).
      (s.1
        ≡ some (record d {
          method = last_value (codes ":method") d.method all;
          path = last_value (codes ":path") d.path all;
        }))
      × (s.0.request_count ≡ count_named (codes ":method") all + io.request_count) in
    subst (λ (s : H2Io × Option StreamData). Left (on_headers id hs s))
      (sym (on_header-proper id h.name h.value now io d p)) (rest, ground (arith, counted))

-- The headers of a request, whose names are the four pseudo headers or start with no colon, leave the stream with
-- the last value of :method and the last of :path, and nothing of the others; each :method counts a request of
-- the connection.
pub on_headers-collects :
    (id : Bytes) (h : SecurityHeader) (now : ℕ) (hs : List (SecurityHeader × ℕ)) (io : H2Io)
    → AllProper ((h, now) ∷ hs)
    → let all = (h, now) ∷ hs in
      let (io', d') = on_headers id all (io, none) in
      (d'
        ≡ some (record (new_stream id) {
          method = last_value (codes ":method") none all;
          path = last_value (codes ":path") none all;
        }))
      × (io'.request_count ≡ count_named (codes ":method") all + io.request_count)
unfolding on_headers on_header new_stream
on_headers-collects id h now hs io p = collected id ((h, now) ∷ hs) io (new_stream id) p
