-- ===== src/Config/Load/Valid.antt =====
-- What `validate_config` of src/config.c makes sure of before the server starts.
use emme.Prelude.{
  ◌≡◌, true, false, not, ◌||◌, Option, none, some, Bytes, arith, Always, result, no_result,
  Always-if, Always-bind, Always-elim, Always-intro,
}
use emme.Config.Yaml.{Node, is_mapping}
use emme.Config.Numbers.{is_end}
use emme.Config.Types.{ServerConfig}
use emme.Config.Routes.Served.{AllServed, validate_routes-AllServed}
use emme.Config.Load.{validate_config, checked, on_section, load_sections, load_config}

-- A certificate and a key, an appender, a file for the file appender, and routes that can be served
pub record Valid (c : ServerConfig) : Type 0 where
  pub certificate : is_end c.ssl.certificate ≡ false
  pub private_key : is_end c.ssl.private_key ≡ false
  pub appender : (c.logging.appender_file || c.logging.appender_console) ≡ true
  pub log_file : (not c.logging.appender_file || not (is_end c.logging.file)) ≡ true
  pub routes : AllServed c.routes

validate_config-Valid : (c : ServerConfig) → validate_config c ≡ true → Valid c
unfolding validate_config
validate_config-Valid c h = record {
  certificate = ground arith;
  private_key = ground arith;
  appender = ground arith;
  log_file = ground arith;
  routes = validate_routes-AllServed c.routes (ground arith);
}

checked-Valid : (c : ServerConfig) → Always Valid (checked c)
unfolding checked
checked-Valid c = Always-if (validate_config c) _ (λ e. result c (validate_config-Valid c e))

section :
    (parse : ServerConfig → Node → Option ServerConfig) (o : Option Node) (c : ServerConfig)
    → Always (λ c'. Unit {0}) (on_section parse o c)
section parse o c = Always-intro _ (λ c' e. tt)

load_sections-Valid :
    (realpath : Bytes → Option Bytes) (root : Node) → Always Valid (load_sections realpath root)
unfolding load_sections
load_sections-Valid realpath root = Always-bind _ _ (section _ _ _) (λ c1 _.
    Always-bind _ _ (section _ _ _) (λ c2 _. Always-bind _ _ (section _ _ _) (λ c3 _.
      Always-bind _ _ (section _ _ _)
        (λ c4 _. Always-bind _ _ (section _ _ _) (λ c5 _. checked-Valid _)))))

load_config_checked :
    (realpath : Bytes → Option Bytes) (document : Option Node)
    → Always Valid (load_config realpath document)
unfolding load_config
load_config_checked realpath none = no_result
load_config_checked realpath (some root) =
    Always-if (is_mapping root) _ (λ e. load_sections-Valid realpath root)

-- Where `load_config` returns 0, a certificate and a private key are named, an appender is on, the file
-- appender has a file, and every route starts with a slash and is a static one with a document root or
-- a reverse proxy whose backend parses into a host of at most 63 bytes and a port from 1 to 65535.
pub load_config-Valid :
    (realpath : Bytes → Option Bytes) (document : Option Node) (c : ServerConfig)
    → load_config realpath document ≡ some c
    → Valid c
load_config-Valid realpath document c e = Always-elim _ c (load_config_checked realpath document) e
