-- ===== src/Lib.antt =====
-- emme is a web server in C: it serves static files and proxies requests to backends over TLS, with HTTP/1.1
-- and HTTP/2. This library models the parts that keep state or decide, and proves what makes them correct.
--
-- The parts. The server (src/server.c) accepts a connection, asks the per-IP limiter whether its address may
-- have one more, and hands it to the thread pool, whose workers read a request and route it. A proxied route
-- asks its backend's circuit breaker, takes a connection of the backend's pool, and reports back whether it
-- worked. Everything is set up from a YAML file and the environment.
--
-- Prelude holds the names that all files share: tests on native numbers, arrays as lists, C strings as lists
-- of bytes without the NUL, signed integers, and chains of steps that may fail.
--
-- IpLimiter is src/ip_limiter.c with include/ip_limiter.h. A shard is the list `entries[0 .. count)`, the
-- limiter a list of 256 shards. `check_and_increment`, `decrement` and `compact` are
-- ip_limiter_check_and_increment, ip_limiter_decrement and ip_limiter_compact; they are composed of functions on
-- one shard in IpLimiter/Entries. Each call works under the lock of a shard, so a history is a sequence of calls
-- (IpLimiter/History). The 64-bit totals and the 32-bit counts wrap around as in C; the clock is an argument.
--
-- ThreadPool is src/thread_pool.c. ThreadPool/Queue is the circular buffer of tasks (task_queue_push,
-- task_queue_pop); a cell that was allocated but not written holds `none`. ThreadPool/Pool is the pool: a
-- thread is its slot, `worker_turn` is what a worker does each time it holds the lock. What malloc,
-- pthread_create and pthread_cond_timedwait return are arguments. The mutex is not state, and the handles and
-- joins of the threads are left out.
--
-- BackendPool is src/backend_pool.c. BackendPool/Breaker is the circuit breaker, whose calls are one step each;
-- no lock is held over such a call, and BackendPool/Breaker/Accesses has record_success and record_failure one
-- atomic access at a time, with two calls that may interleave. BackendPool/Connections is the pool of
-- connections (acquire, release, the marks), BackendPool/HealthCheck one round of the checker's thread on that
-- pool. Time is an argument, and so is what the HTTP/2 client does on the wire. Counters of type int are
-- modelled by numbers that agree with C below INT_MAX; active_count and idle_count keep their wrap-around. An
-- operation under a lock is one step; backend_pool_acquire is one step too, which is exact where calls do not
-- overlap on one connection's lock, since it changes a connection only under that lock.
--
-- Config is src/config.c with include/config.h and include/logging_common.h. Config/Yaml is the document that
-- libyaml builds, Config/Numbers is strtol, strtoull and the %d of sscanf, Config/Fields the readers of single
-- fields and the macros PARSE_FIELD, PARSE_STRING and PARSE_BOOL, Config/Types the records and the defaults,
-- Config/Nested, Config/Sections and Config/Routes the sections, Config/Backend parse_backend_url, and
-- Config/Load load_config and apply_env_overrides. The outcome of opening and parsing the file, realpath and
-- getenv are parameters. Messages to stderr are left out. Where load_config returns -1 its record is partly
-- written in C; here there is no record then.
--
-- HttpParser is src/http_parser.c: the buffer is its bytes, in which lines are found as strstr finds them, also
-- where a NUL is among them; parsed_buffer is that buffer with the NULs that the parser writes into it.
-- Http2Response is src/http2_response.c, an HTTP/2 response without the texts of its two numbers. Router is
-- src/router.c: Router/Choice the route of a request, Router/Files lookup_static_file on a file system that is a
-- parameter (realpath, open, lseek), Router/Header the header of an HTTP/1.1 response with the reach of its
-- writes, Router/Proxy proxy_to_backend_pooled on the breaker and the pool of BackendPool, Router/Dispatch
-- route_request_tls where the response is of HTTP/2, with `forward` for the call that proxies and `read` for the
-- reads of a file. SSL_write is taken to accept all that it is given.
--
-- Log is src/log.c: Log/Entry the lines, Log/File the log file with its rollover, Log/Logger the ring buffer
-- with log_message and the passes of logger_thread_func, Log/Lifecycle log_init and log_shutdown. Log/Queue is
-- the specification, a queue that refuses what is too much, over the events posted, passed and stopped. What is
-- written is a list of actions. A rename may fail, and the file then keeps its bytes; what is printed to it is
-- taken to be written. The local time (localtime_r, strftime) is a parameter; malloc is taken to give as many
-- entries as it is asked for. Head and tail wrap around as a size_t.
--
-- Http2Client is src/http2_client.c with include/http2_client.h: Http2Client/Client the state, the callbacks and
-- the getters, Http2Client/Connect http2_client_init, http2_client_connect and http2_client_cleanup with what
-- each pointer owns, Http2Client/Request http2_client_send_request and http2_client_recv_response. The callbacks
-- that nghttp2 makes while it receives, and what SSL, poll and the clock say, are arguments of each round.
--
-- Server is src/server.c. Server.antt keeps accounts: accept_and_dispatch_client from the result of the accept
-- on, the end of client_task, handle_signal and drain_in_flight_requests, on the limiter and the thread pool. An
-- accept is one step of a history, the end of a task two; the loop that drains is given what it sees each time
-- it looks. The task that is queued is named by its address. Server/Connection is the TLS handshake and
-- handle_client, Server/Http1 handle_http1_connection with find_header_end and the refusals 408, 431 and 400, on
-- HttpParser, and Server/Http2 the callbacks and the loop of an HTTP/2 connection, on Router. Times in
-- milliseconds are numbers, below INT_MAX as in C.
--
-- Metrics is the histograms of src/metrics.c, on any type of values with a test for `<=`.
--
-- Uuid is src/uuid.c: the Mersenne Twister, whose first number is tested against the published one, and the
-- text of an identifier. What seeds it is an argument.
--
-- Fuel. Loops are recursion on the list they go through or on the rounds left. Only print_decimal runs on
-- fuel, twenty divisions by ten, and its numbers are below 2^64, which have twenty digits at most.
--
-- Not modelled: initialize_server and the accept loop of src/server.c, which call sockets and io_uring;
-- src/tls.c, which sets up OpenSSL; the byte pump of proxied HTTP/1.1 requests and proxy_to_backend_direct in
-- src/router.c; the rest of src/metrics.c; src/main.c, which only starts the parts in turn.
pub mod Prelude
pub mod IpLimiter
pub mod ThreadPool
pub mod BackendPool
pub mod Config
pub mod Router
pub mod HttpParser
pub mod Metrics
pub mod Log
pub mod Server
pub mod Http2Response
pub mod Uuid
pub mod Http2Client
