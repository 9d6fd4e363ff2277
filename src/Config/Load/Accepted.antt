-- ===== src/Config/Load/Accepted.antt =====
-- What a configuration that `load_config` of src/config.c accepts is like.
use emme.Prelude.{
  sym, ◌≡◌, Option, none, some, Bytes, arith, Always, result, no_result, Always-intro, Always-elim,
  Always-bind, Always-if,
}
use emme.Config.Yaml.{Node, scalar, sequence, mapping, is_mapping}
use emme.Config.Types.{ServerConfig, SecurityHeadersConfig, config_defaults}
use emme.Config.Sections.{
  parse_server_section, parse_logging_section, parse_ssl_section, parse_http2_section,
}
use emme.Config.Routes.{parse_routes_section}
use emme.Config.Routes.Fits.{FitTable, FitTable-same, no_routes, parse_entries-FitTable}
use emme.Config.Load.{load_config, load_sections, on_section, validate_config, checked}
use emme.Config.Load.Ranges.{InRanges, config_defaults-InRanges, InRanges-other}
use emme.Config.Load.Keeps.{
  parse_server_section-InRanges, parse_logging_section-InRanges, parse_ssl_section-InRanges,
  parse_http2_section-InRanges,
}

-- The sections before the routes leave the routes alone.
server_routes :
    (c c' : ServerConfig) (node : Node)
    → parse_server_section c node ≡ some c'
    → c'.routes ≡ c.routes
unfolding parse_server_section
server_routes c c' node h = ground arith

logging_routes :
    (c c' : ServerConfig) (node : Node)
    → parse_logging_section c node ≡ some c'
    → c'.routes ≡ c.routes
unfolding parse_logging_section
logging_routes c c' node h = ground arith

ssl_routes :
    (c c' : ServerConfig) (node : Node) → parse_ssl_section c node ≡ some c' → c'.routes ≡ c.routes
unfolding parse_ssl_section
ssl_routes c c' node h = ground arith

http2_routes :
    (c c' : ServerConfig) (node : Node)
    → parse_http2_section c node ≡ some c'
    → c'.routes ≡ c.routes
unfolding parse_http2_section
http2_routes c c' node h = ground arith

section_routes :
    (parse : ServerConfig → Node → Option ServerConfig)
    → ((c c' : ServerConfig) (node : Node) → parse c node ≡ some c' → c'.routes ≡ c.routes)
    → (o : Option Node) (c c' : ServerConfig) → on_section parse o c ≡ some c'
    → c'.routes ≡ c.routes
unfolding on_section
section_routes parse keeps none c c' h = ground arith
section_routes parse keeps (some node) c c' h = keeps c c' node h

section-InRanges :
    (parse : ServerConfig → Node → Option ServerConfig)
    → ((c : ServerConfig) (node : Node) → InRanges c → Always InRanges (parse c node))
    → (o : Option Node) (c : ServerConfig) → InRanges c
    → Always InRanges (on_section parse o c)
unfolding on_section
section-InRanges parse keeps none c h = result c h
section-InRanges parse keeps (some node) c h = keeps c node h

-- Everything but the checks of `validate_config`
record Loaded (c : ServerConfig) : Type 0 where
  ranges : InRanges c
  table : FitTable c.routes

section-Loaded :
    (parse : ServerConfig → Node → Option ServerConfig)
    → ((c : ServerConfig) (node : Node) → InRanges c → Always InRanges (parse c node))
    → ((c c' : ServerConfig) (node : Node) → parse c node ≡ some c' → c'.routes ≡ c.routes)
    → (o : Option Node) (c : ServerConfig) → Loaded c
    → Always Loaded (on_section parse o c)
section-Loaded parse keeps same o c h = Always-intro _ (λ c' e. record {
  ranges = Always-elim _ c' (section-InRanges parse keeps o c h.ranges) e;
  table = FitTable-same c.routes c'.routes (sym (section_routes parse same o c c' e)) h.table;
})

routes-Loaded :
    (realpath : Bytes → Option Bytes) (c : ServerConfig) (node : Node)
    → Loaded c
    → Always Loaded (parse_routes_section realpath c node)
unfolding parse_routes_section
routes-Loaded realpath c (sequence items) h =
    Always-bind _ _ (parse_entries-FitTable realpath items c.routes h.table) (λ rs t.
      result _ (record { ranges = InRanges-other c rs c.security_headers h.ranges; table = t }))
routes-Loaded realpath c (mapping pairs) h = no_result
routes-Loaded realpath c (scalar value) h = no_result

routes_on :
    (realpath : Bytes → Option Bytes) (o : Option Node) (c : ServerConfig)
    → Loaded c
    → Always Loaded (on_section (parse_routes_section realpath) o c)
unfolding on_section
routes_on realpath none c h = result c h
routes_on realpath (some node) c h = routes-Loaded realpath c node h

default_table : FitTable config_defaults.routes
unfolding config_defaults
default_table = record { count = omega arith; routes = no_routes }

with_headers :
    (c : ServerConfig) (headers : SecurityHeadersConfig)
    → Loaded c
    → Loaded (record c { security_headers = headers })
with_headers c headers h = record {
  ranges = InRanges-other c c.routes headers h.ranges;
  table = h.table;
}

checked-Loaded : (c : ServerConfig) → Loaded c → Always Loaded (checked c)
unfolding checked
checked-Loaded c h = Always-if (validate_config c) _ (λ e. result c h)

load_sections-Loaded :
    (realpath : Bytes → Option Bytes) (root : Node) → Always Loaded (load_sections realpath root)
unfolding load_sections
load_sections-Loaded realpath root =
    Always-bind _ _
      (section-Loaded _ parse_server_section-InRanges server_routes _ _
        (record { ranges = config_defaults-InRanges; table = default_table }))
      (λ c1 h1.
        Always-bind _ _ (section-Loaded _ parse_logging_section-InRanges logging_routes _ c1 h1)
          (λ c2 h2.
            Always-bind _ _ (section-Loaded _ parse_ssl_section-InRanges ssl_routes _ c2 h2)
              (λ c3 h3.
                Always-bind _ _ (section-Loaded _ parse_http2_section-InRanges http2_routes _ c3 h3)
                  (λ c4 h4.
                    Always-bind _ _ (routes_on realpath _ c4 h4)
                      (λ c5 h5. checked-Loaded _ (with_headers c5 _ h5))))))

load_config-Loaded :
    (realpath : Bytes → Option Bytes) (document : Option Node)
    → Always Loaded (load_config realpath document)
unfolding load_config
load_config-Loaded realpath none = no_result
load_config-Loaded realpath (some root) =
    Always-if (is_mapping root) _ (λ e. load_sections-Loaded realpath root)

-- Where `load_config` returns 0, every numeric option is in the range of the section that reads it,
-- whichever of the sections the document has.
pub load_config-InRanges :
    (realpath : Bytes → Option Bytes) (document : Option Node) (c : ServerConfig)
    → load_config realpath document ≡ some c
    → InRanges c
load_config-InRanges realpath document c e =
    (Always-elim _ c (load_config-Loaded realpath document) e).ranges

-- Where `load_config` returns 0 there are at most 16 routes, and what the file says of each fits with the final NUL:
-- path, technology, document root and backend, the path of the health check, the three strings of CORS, and the
-- names and values of its headers, of which there are at most 10.
pub load_config-FitTable :
    (realpath : Bytes → Option Bytes) (document : Option Node) (c : ServerConfig)
    → load_config realpath document ≡ some c
    → FitTable c.routes
load_config-FitTable realpath document c e =
    (Always-elim _ c (load_config-Loaded realpath document) e).table
