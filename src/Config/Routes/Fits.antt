-- ===== src/Config/Routes/Fits.antt =====
-- The routes that src/config.c reads, in their buffers and their array.
use mathlib.Core.Path.{subst}
use emme.Prelude.{
  ◌≤◌, ◌≡◌, leb, Option, List, [], ◌∷◌, ◌++◌, Bytes, codes, length, length-append, arith, Always,
  result, Always-bind, Always-if, Always-unless, leb-false,
}
use emme.Config.Yaml.{Node, Nodes, no_items, item, find_yaml_node, is_mapping}
use emme.Config.Types.{Route}
use emme.Config.Routes.{parse_entries, parse_route_entry, parse_route, max_routes}
use emme.Config.Routes.Buffers.{
  Fit, FitHeaders, FitCors, required-Fit, parse_string_field-Fit, health_check-Fit, cors-FitCors,
  security_headers_fit,
}

pub record Fits (r : Route) : Type 0 where
  pub path : Fit r.path 128
  pub technology : Fit r.technology 32
  pub document_root : Fit r.document_root 256
  pub backend : Fit r.backend 64
  pub header_count : length r.security_headers.headers ≤ 10
  pub headers : FitHeaders r.security_headers.headers
  pub health_path : Fit r.health_check.path 128
  pub cors : FitCors r.cors

pub data AllFit : List Route → Type 0 where
  no_routes : AllFit []
  one_more : {rs : List Route} (r : Route) → Fits r → AllFit rs → AllFit (r ∷ rs)

append-AllFit : (rs : List Route) (r : Route) → AllFit rs → Fits r → AllFit (rs ++ (r ∷ []))
append-AllFit _ r no_routes f = one_more r f no_routes
append-AllFit _ r (one_more {rs} r' f' more) f = one_more r' f' (append-AllFit rs r more f)

parse_route-Fits :
    (realpath : Bytes → Option Bytes) (node : Node) → Always Fits (parse_route realpath node)
unfolding parse_route
parse_route-Fits realpath node = Always-bind _ _ (required-Fit _ 128) (λ path h1.
    Always-bind _ _ (required-Fit _ 32) (λ technology h2.
      Always-bind _ _ (parse_string_field-Fit node _ 256 (omega arith)) (λ root h3.
        Always-bind _ _ (parse_string_field-Fit node _ 64 (omega arith)) (λ backend h4.
          result _ (record {
            path = h1;
            technology = h2;
            document_root = h3;
            backend = h4;
            header_count =
                (security_headers_fit (find_yaml_node node (codes "security_headers"))).0;
            headers = (security_headers_fit (find_yaml_node node (codes "security_headers"))).1;
            health_path = health_check-Fit (find_yaml_node node (codes "health_check"));
            cors = cors-FitCors (find_yaml_node node (codes "cors"));
          })))))

-- The routes read so far: no more than the array holds, each in its buffers.
pub record FitTable (rs : List Route) : Type 0 where
  pub count : length rs ≤ 16
  pub routes : AllFit rs

parse_route_entry-FitTable :
    (realpath : Bytes → Option Bytes) (rs : List Route) (node : Node)
    → FitTable rs
    → Always FitTable (parse_route_entry realpath rs node)
unfolding parse_route_entry
parse_route_entry-FitTable realpath rs node h =
    Always-unless (leb max_routes (length rs)) _ (λ room.
      Always-bind _ _ (parse_route-Fits realpath node) (λ r f. result _ (record {
        count = omega (arith, length-append rs (r ∷ []), leb-false max_routes (length rs) room);
        routes = append-AllFit rs r h.routes f;
      })))

pub parse_entries-FitTable :
    (realpath : Bytes → Option Bytes) (items : Nodes) (rs : List Route)
    → FitTable rs
    → Always FitTable (parse_entries realpath items rs)
unfolding parse_entries
parse_entries-FitTable realpath no_items rs h = result rs h
parse_entries-FitTable realpath (item node rest) rs h = Always-if (is_mapping node) _ (λ e.
    Always-bind _ _ (parse_route_entry-FitTable realpath rs node h)
      (parse_entries-FitTable realpath rest))

pub FitTable-same : (rs rs' : List Route) → rs ≡ rs' → FitTable rs → FitTable rs'
FitTable-same rs rs' e h = subst FitTable e h
