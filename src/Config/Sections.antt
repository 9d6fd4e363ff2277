-- ===== src/Config/Sections.antt =====
-- The top-level sections of src/config.c. A section returns `none` where the source returns -1.
use emme.Prelude.{
  Bool, true, false, if◌then◌else◌, pos, Option, none, some, ◌>>=◌, [], Bytes, codes, str_case_eq,
  ◌||◌,
}
use emme.Config.Yaml.{
  Node, scalar, sequence, mapping, Nodes, no_items, item, find_yaml_node, is_mapping,
}
use emme.Config.Fields.{
  get_yaml_string, parse_int_field, parse_size_field, parse_string_field, parse_bool_field, if_read,
}
use emme.Config.Types.{
  ServerConfig, LogLevel, level_debug, level_info, level_warn, level_error, LogFormat, plain, json,
}

-- The test of each section that its node is a mapping
abbrev pub guard_mapping {ℓ} : {A : Type ℓ} → Node → Option A → Option A
guard_mapping node r = if is_mapping node then r else none

-- `parse_server_section`
unfoldable pub parse_server_section : ServerConfig → Node → Option ServerConfig
parse_server_section c node = guard_mapping node (do
  port ← parse_int_field node (codes "port") (pos 1) (pos 65535) c.port
  max_connections ←
      parse_int_field node (codes "max_connections") (pos 1) (pos 1000000) c.max_connections
  shutdown ←
      parse_int_field node (codes "shutdown_timeout_seconds") (pos 1) (pos 300)
        c.shutdown_timeout_seconds
  request ←
      parse_int_field node (codes "request_timeout_ms") (pos 1000) (pos 300000) c.request_timeout_ms
  handshake ←
      parse_int_field node (codes "tls_handshake_timeout_ms") (pos 1000) (pos 60000)
        c.tls_handshake_timeout_ms
  per_ip ←
      parse_int_field node (codes "per_ip_connection_limit") (pos 1) (pos 10000)
        c.per_ip_connection_limit
  log_level ← parse_string_field node (codes "log_level") 16 c.log_level
  some (record c {
    port = port;
    max_connections = max_connections;
    shutdown_timeout_seconds = shutdown;
    request_timeout_ms = request;
    tls_handshake_timeout_ms = handshake;
    per_ip_connection_limit = per_ip;
    log_level = log_level;
  }))

-- `parse_log_level`
unfoldable pub parse_log_level : Bytes → Option LogLevel
parse_log_level value =
    if str_case_eq value (codes "debug")
    then some level_debug
    else if str_case_eq value (codes "info")
    then some level_info
    else if str_case_eq value (codes "warn")
    then some level_warn
    else if str_case_eq value (codes "error")
    then some level_error
    else none

-- `parse_log_format`
unfoldable pub parse_log_format : Bytes → Option LogFormat
parse_log_format value =
    if str_case_eq value (codes "plain")
    then some plain
    else if str_case_eq value (codes "json")
    then some json
    else none

unfoldable pub level_of : Option Node → LogLevel → Option LogLevel
level_of none old = some old
level_of (some n) old = do text ← if_read (get_yaml_string n 16 []); parse_log_level text

unfoldable pub format_of : Option Node → LogFormat → Option LogFormat
format_of none old = some old
format_of (some n) old = do text ← if_read (get_yaml_string n 16 []); parse_log_format text

-- The two bits of `appender_flags`
abbrev pub Flags : Type 0
Flags = Bool × Bool

set_flag : Node → Flags → Option Flags
set_flag (scalar flag) (file, console) =
    if str_case_eq flag (codes "file")
    then some (true, console)
    else if str_case_eq flag (codes "console")
    then some (file, true)
    else none
set_flag (sequence items) flags = none
set_flag (mapping pairs) flags = none

set_flags : Nodes → Flags → Option Flags
unfolding set_flag
set_flags no_items flags = some flags
set_flags (item node rest) flags = do flags' ← set_flag node flags; set_flags rest flags'

some_flag : Flags → Option Flags
some_flag (file, console) = if file || console then some (file, console) else none

appenders_of : Node → Option Flags
appenders_of (sequence items) = do flags ← set_flags items (false, false); some_flag flags
appenders_of (mapping pairs) = none
appenders_of (scalar value) = none

flags_of : Option Node → Flags → Option Flags
flags_of none old = some old
flags_of (some node) old = appenders_of node

-- `parse_appender_flags`, where the field is present or not
unfoldable pub parse_appender_flags : Option Node → Flags → Option Flags
unfolding flags_of appenders_of set_flags some_flag
parse_appender_flags node old = flags_of node old

-- `parse_logging_section`; `buffer_size` is read a second time in the source, with the same result.
unfoldable pub parse_logging_section : ServerConfig → Node → Option ServerConfig
unfolding level_of format_of
parse_logging_section c node = guard_mapping node (do
  file ← parse_string_field node (codes "file") 256 c.logging.file
  size ← parse_size_field node (codes "buffer_size") 1 1048576 c.logging.buffer_size
  level ← level_of (find_yaml_node node (codes "level")) c.logging.level
  format ← format_of (find_yaml_node node (codes "format")) c.logging.format
  buffer_size ← parse_size_field node (codes "buffer_size") 1 1048576 size
  rollover_size ←
      parse_size_field node (codes "rollover_size") 0 1099511627776 c.logging.rollover_size
  rollover_daily ← parse_bool_field node (codes "rollover_daily") c.logging.rollover_daily
  flags ←
      parse_appender_flags (find_yaml_node node (codes "appender_flags"))
        (c.logging.appender_file, c.logging.appender_console)
  some (record c {
    logging = record {
      file = file;
      level = level;
      format = format;
      buffer_size = buffer_size;
      rollover_size = rollover_size;
      rollover_daily = rollover_daily;
      appender_file = flags.0;
      appender_console = flags.1;
    };
  }))

-- `parse_ssl_section`
unfoldable pub parse_ssl_section : ServerConfig → Node → Option ServerConfig
parse_ssl_section c node = guard_mapping node (do
  certificate ← parse_string_field node (codes "certificate") 256 c.ssl.certificate
  private_key ← parse_string_field node (codes "private_key") 256 c.ssl.private_key
  cache ←
      parse_int_field node (codes "session_cache_size") (pos 1000) (pos 1000000)
        c.ssl.session_cache_size
  timeout ← parse_int_field node (codes "session_timeout") (pos 60) (pos 3600) c.ssl.session_timeout
  ticket_key ← parse_string_field node (codes "session_ticket_key") 256 c.ssl.session_ticket_key
  read_buffer ←
      parse_int_field node (codes "read_buffer_size") (pos 4096) (pos 65536) c.ssl.read_buffer_size
  partial ← parse_bool_field node (codes "enable_partial_write") c.ssl.enable_partial_write
  release ← parse_bool_field node (codes "release_buffers") c.ssl.release_buffers
  some (record c {
    ssl = record {
      certificate = certificate;
      private_key = private_key;
      session_ticket_key = ticket_key;
      session_cache_size = cache;
      session_timeout = timeout;
      read_buffer_size = read_buffer;
      enable_partial_write = partial;
      release_buffers = release;
    };
  }))

-- `parse_http2_section`
unfoldable pub parse_http2_section : ServerConfig → Node → Option ServerConfig
parse_http2_section c node = guard_mapping node (do
  keepalive ←
      parse_int_field node (codes "keepalive_timeout") (pos 10) (pos 300) c.http2.keepalive_timeout
  requests ←
      parse_int_field node (codes "max_requests_per_connection") (pos 1) (pos 100000)
        c.http2.max_requests_per_connection
  streams ←
      parse_int_field node (codes "max_concurrent_streams") (pos 1) (pos 1000)
        c.http2.max_concurrent_streams
  some (record c {
    http2 = record {
      keepalive_timeout = keepalive;
      max_requests_per_connection = requests;
      max_concurrent_streams = streams;
    };
  }))
