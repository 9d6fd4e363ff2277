-- ===== src/Config/Load/Keeps.antt =====
-- The sections of src/config.c against the ranges of the numeric options.
use emme.Prelude.{
  ℕ, ◌≤◌, Bool, ℤ, pos, Option, Bytes, codes, Always, result, Always-intro, Always-bind, Always-if,
}
use emme.Config.Yaml.{Node, find_yaml_node, is_mapping}
use emme.Config.Fields.{parse_int_field, parse_size_field, parse_string_field, parse_bool_field}
use emme.Config.Load.Ranges.{Between, parse_int_field-Between, parse_size_field-Between, InRanges}
use emme.Config.Types.{ServerConfig}
use emme.Config.Sections.{
  parse_server_section, parse_logging_section, parse_ssl_section, parse_http2_section, level_of,
  format_of, parse_appender_flags,
}

int_field :
    (node : Node) (name : Bytes) (low high : ℕ) (old : ℤ)
    → Between low high old
    → Always (Between low high) (parse_int_field node name (pos low) (pos high) old)
int_field node name low high old b =
    Always-intro _ (λ v e. parse_int_field-Between node name low high old v e b)

size_field :
    (node : Node) (name : Bytes) (low high old : ℕ)
    → (low ≤ old) × (old ≤ high)
    → Always (λ v. (low ≤ v) × (v ≤ high)) (parse_size_field node name low high old)
size_field node name low high old b =
    Always-intro _ (λ v e. parse_size_field-Between node name low high old v e b)

whatever : {A : Type 0} (o : Option A) → Always (λ _. Unit {0}) o
whatever o = Always-intro o (λ a e. tt)

string_field :
    (node : Node) (name : Bytes) (size : ℕ) (old : Bytes)
    → Always (λ _. Unit {0}) (parse_string_field node name size old)
string_field node name size old = whatever _

bool_field :
    (node : Node) (name : Bytes) (old : Bool)
    → Always (λ _. Unit {0}) (parse_bool_field node name old)
bool_field node name old = whatever _

pub parse_server_section-InRanges :
    (c : ServerConfig) (node : Node) → InRanges c → Always InRanges (parse_server_section c node)
unfolding parse_server_section
parse_server_section-InRanges c node h = Always-if (is_mapping node) _ (λ e.
    Always-bind _ _ (int_field node _ 1 65535 _ h.server.port) (λ port h1.
      Always-bind _ _ (int_field node _ 1 1000000 _ h.server.max_connections) (λ connections h2.
        Always-bind _ _ (int_field node _ 1 300 _ h.server.shutdown_timeout_seconds) (λ shutdown h3.
          Always-bind _ _ (int_field node _ 1000 300000 _ h.server.request_timeout_ms)
            (λ request h4.
              Always-bind _ _ (int_field node _ 1000 60000 _ h.server.tls_handshake_timeout_ms)
                (λ handshake h5.
                  Always-bind _ _ (int_field node _ 1 10000 _ h.server.per_ip_connection_limit)
                    (λ per_ip h6. Always-bind _ _ (string_field node _ 16 c.log_level) (λ level t.
                      result _ (record {
                        server = record {
                          port = h1;
                          max_connections = h2;
                          shutdown_timeout_seconds = h3;
                          request_timeout_ms = h4;
                          tls_handshake_timeout_ms = h5;
                          per_ip_connection_limit = h6;
                        };
                        logging = h.logging;
                        ssl = h.ssl;
                        http2 = h.http2;
                      })))))))))

pub parse_logging_section-InRanges :
    (c : ServerConfig) (node : Node) → InRanges c → Always InRanges (parse_logging_section c node)
unfolding parse_logging_section
parse_logging_section-InRanges c node h = Always-if (is_mapping node) _ (λ e.
    Always-bind _ _ (string_field node _ 256 c.logging.file) (λ file t1.
      Always-bind _ _ (size_field node _ 1 1048576 _ h.logging.buffer_size) (λ size h1.
        Always-bind _ _ (whatever (level_of (find_yaml_node node (codes "level")) c.logging.level))
          (λ level t2.
            Always-bind _ _
              (whatever (format_of (find_yaml_node node (codes "format")) c.logging.format))
              (λ format t3. Always-bind _ _ (size_field node _ 1 1048576 _ h1) (λ buffer_size h2.
                Always-bind _ _ (size_field node _ 0 1099511627776 _ h.logging.rollover_size)
                  (λ rollover_size h3.
                    Always-bind _ _ (bool_field node _ c.logging.rollover_daily) (λ daily t4.
                      Always-bind _ _
                        (whatever (
                          parse_appender_flags (find_yaml_node node (codes "appender_flags"))
                            (c.logging.appender_file, c.logging.appender_console)))
                        (λ flags t5. result _ (record {
                          server = record {
                            port = h.server.port;
                            max_connections = h.server.max_connections;
                            shutdown_timeout_seconds = h.server.shutdown_timeout_seconds;
                            request_timeout_ms = h.server.request_timeout_ms;
                            tls_handshake_timeout_ms = h.server.tls_handshake_timeout_ms;
                            per_ip_connection_limit = h.server.per_ip_connection_limit;
                          };
                          logging = record { buffer_size = h2; rollover_size = h3 };
                          ssl = h.ssl;
                          http2 = h.http2;
                        }))))))))))

pub parse_ssl_section-InRanges :
    (c : ServerConfig) (node : Node) → InRanges c → Always InRanges (parse_ssl_section c node)
unfolding parse_ssl_section
parse_ssl_section-InRanges c node h = Always-if (is_mapping node) _ (λ e.
    Always-bind _ _ (string_field node _ 256 c.ssl.certificate) (λ certificate t1.
      Always-bind _ _ (string_field node _ 256 c.ssl.private_key) (λ key t2.
        Always-bind _ _ (int_field node _ 1000 1000000 _ h.ssl.session_cache_size) (λ cache h1.
          Always-bind _ _ (int_field node _ 60 3600 _ h.ssl.session_timeout) (λ timeout h2.
            Always-bind _ _ (string_field node _ 256 c.ssl.session_ticket_key) (λ ticket_key t3.
              Always-bind _ _ (int_field node _ 4096 65536 _ h.ssl.read_buffer_size) (λ buffer h3.
                Always-bind _ _ (bool_field node _ c.ssl.enable_partial_write) (λ partial t4.
                  Always-bind _ _ (bool_field node _ c.ssl.release_buffers) (λ release t5.
                    result _ (record {
                      server = record {
                        port = h.server.port;
                        max_connections = h.server.max_connections;
                        shutdown_timeout_seconds = h.server.shutdown_timeout_seconds;
                        request_timeout_ms = h.server.request_timeout_ms;
                        tls_handshake_timeout_ms = h.server.tls_handshake_timeout_ms;
                        per_ip_connection_limit = h.server.per_ip_connection_limit;
                      };
                      logging = h.logging;
                      ssl = record {
                        session_cache_size = h1;
                        session_timeout = h2;
                        read_buffer_size = h3;
                      };
                      http2 = h.http2;
                    }))))))))))

pub parse_http2_section-InRanges :
    (c : ServerConfig) (node : Node) → InRanges c → Always InRanges (parse_http2_section c node)
unfolding parse_http2_section
parse_http2_section-InRanges c node h = Always-if (is_mapping node) _ (λ e.
    Always-bind _ _ (int_field node _ 10 300 _ h.http2.keepalive_timeout) (λ keepalive h1.
      Always-bind _ _ (int_field node _ 1 100000 _ h.http2.max_requests_per_connection)
        (λ requests h2.
          Always-bind _ _ (int_field node _ 1 1000 _ h.http2.max_concurrent_streams) (λ streams h3.
            result _ (record {
              server = record {
                port = h.server.port;
                max_connections = h.server.max_connections;
                shutdown_timeout_seconds = h.server.shutdown_timeout_seconds;
                request_timeout_ms = h.server.request_timeout_ms;
                tls_handshake_timeout_ms = h.server.tls_handshake_timeout_ms;
                per_ip_connection_limit = h.server.per_ip_connection_limit;
              };
              logging = h.logging;
              ssl = h.ssl;
              http2 = record {
                keepalive_timeout = h1;
                max_requests_per_connection = h2;
                max_concurrent_streams = h3;
              };
            })))))
