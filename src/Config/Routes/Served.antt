-- ===== src/Config/Routes/Served.antt =====
-- What `validate_routes` of src/config.c makes sure of.
use emme.Prelude.{
  ◌≡◌, Bool, true, false, ℤ, some, List, [], ◌∷◌, Bytes, codes, str_eq, str_eq_sound, arith,
  Option-cases, Bool-cases, inl, inr,
}
use emme.Config.Numbers.{is_end}
use emme.Config.Types.{Route}
use emme.Config.Routes.{validate_route, validate_routes, validate_backend, starts_with_slash}
use emme.Config.Backend.{parse_backend_url}
use emme.Config.Backend.Form.{Address, parse_backend_url_sound}

-- A route of one of the two technologies, with what the handler of that technology needs.
pub data Served (r : Route) : Type 0 where
  files :
      starts_with_slash r.path ≡ true
      → r.technology ≡ codes "static"
      → is_end r.document_root ≡ false
      → Served r
  proxied :
      (a : Bytes × ℤ)
      → starts_with_slash r.path ≡ true
      → r.technology ≡ codes "reverse_proxy"
      → parse_backend_url r.backend 64 ≡ some a
      → Address 64 a
      → Served r

pub data AllServed : List Route → Type 0 where
  all_served : AllServed []
  and_served : {rs : List Route} (r : Route) → Served r → AllServed rs → AllServed (r ∷ rs)

validate_backend-Address :
    (backend : Bytes)
    → validate_backend backend ≡ true
    → (a : Bytes × ℤ) × (parse_backend_url backend 64 ≡ some a) × Address 64 a
unfolding validate_backend
validate_backend-Address backend h = elim (Option-cases (parse_backend_url backend 64)) [
  | inl e ↦ absurd (ground (arith, e))
  | inr (a, e) ↦ (a, e, parse_backend_url_sound backend 64 a e)
]

abbrev is_static : Route → Bool
is_static r = str_eq r.technology (codes "static")

abbrev is_proxy : Route → Bool
is_proxy r = str_eq r.technology (codes "reverse_proxy")

validate_route-Served : (r : Route) → validate_route r ≡ true → Served r
unfolding validate_route
validate_route-Served r h = elim (Bool-cases (is_static r)) [
  | inl static ↦ files (ground arith) (str_eq_sound _ _ static) (ground arith)
  | inr other ↦ elim (Bool-cases (is_proxy r)) [
    | inl proxy ↦
        let (a, e, address) = validate_backend-Address r.backend (ground arith) in
        proxied a (ground arith) (str_eq_sound _ _ proxy) e address
    | inr neither ↦ absurd (ground arith)
  ]
]

pub validate_routes-AllServed : (rs : List Route) → validate_routes rs ≡ true → AllServed rs
unfolding validate_routes
validate_routes-AllServed [] h = all_served
validate_routes-AllServed (r ∷ rs) h =
    and_served r (validate_route-Served r (ground arith))
      (validate_routes-AllServed rs (ground arith))
