-- ===== src/Router/Examples.antt =====
-- A configuration with a static route and a proxied one, and the theorems on src/router.c at it.
use emme.Prelude.{
  ◌<◌, ◌≡◌, refl, true, false, pos, Option, none, some, [], ◌∷◌, Bytes, codes, str_eq, has_prefix,
  replicate, arith, print_decimal, digits_before,
}
use emme.Config.Types.{Route, config_defaults}
use emme.Http2Response.{h2_response_init}
use emme.Router.Sample.{
  plain_route, proxied, two_routes, files, file_found, no_reads, refusing, is_answered_501,
}
use emme.Router.Choice.{
  find_reverse_proxy_route, get_security_headers_for_request, get_cors_config_for_request,
  security_headers_from, cors_from,
}
use emme.Router.Files.{lookup_static_file}
use emme.Router.Header.{
  append_line, append_headers, append_if, add_security_headers_to_buffer,
  add_cors_headers_to_buffer, finish_header, send_simple_response_with_config, status_head,
}
use emme.Router.Whole.{Response, send_simple-Response, add_security_headers_to_buffer_overruns}
use emme.BackendPool.Breaker.{closed}
use emme.BackendPool.Connections.{new_conn}
use emme.Router.Proxy.{Backend, Exchange, proxy_to_backend_pooled}
use emme.Router.Lease.{Returned, proxy_to_backend_pooled-Returned}
use emme.Router.Dispatch.{route_request_h2}
use emme.Router.Answers.{expected_status, proxied_on, route_request_h2-status}
use emme.Router.Inside.{First, Found, lookup_static_file-Found}

lookup_static_file-Found_example :
    (r : Route) × First (codes "static") (codes "/s/a.css") two_routes.routes r
    × Found files r (codes "w/a.css") 7
lookup_static_file-Found_example =
    lookup_static_file-Found files two_routes (codes "/s/a.css") (codes "w/a.css")
      (codes "text/css") 7 file_found

-- The same route with the root of the file system
abbrev whole_disk : Route
whole_disk = record plain_route { document_root = codes "/"; document_root_real = codes "/" }

abbrev or_nothing : Option Bytes → Bytes
or_nothing none = []
or_nothing (some text) = text

abbrev not_found_line : Bytes
not_found_line = codes "HTTP/1.1 404 Not Found"

abbrev not_found_text : Bytes
not_found_text =
    or_nothing (send_simple_response_with_config not_found_line [] [] (codes "/x") two_routes).text

not_found_sent :
    (send_simple_response_with_config not_found_line [] [] (codes "/x") two_routes).text
    ≡ some not_found_text
unfolding send_simple_response_with_config finish_header add_cors_headers_to_buffer
    add_security_headers_to_buffer append_headers append_line append_if
    get_security_headers_for_request get_cors_config_for_request security_headers_from cors_from
    print_decimal digits_before has_prefix str_eq config_defaults
not_found_sent = refl

send_simple-Response_example : Response (status_head not_found_line [] []) [] not_found_text
send_simple-Response_example =
    send_simple-Response not_found_line [] [] (codes "/x") not_found_text two_routes not_found_sent

-- A header of 256 bytes and a text of three
abbrev long_value : Bytes
long_value = replicate 252 b'v'

add_security_headers_to_buffer_overruns_example :
    256
    < (add_security_headers_to_buffer
        (record { content = codes "HTTP"; reach = 5 })
        (record {
          enabled = true;
          headers = record { name = codes "A"; value = long_value } ∷ [];
        })).reach
add_security_headers_to_buffer_overruns_example =
    add_security_headers_to_buffer_overruns (record { content = codes "HTTP"; reach = 5 })
      (record { name = codes "A"; value = long_value }) [] (omega arith) (omega arith) (omega arith)

-- A closed breaker and one free connection
abbrev backend : Backend
backend = record {
  breaker = record {
    state = closed;
    failure_count = 0;
    success_count = 0;
    last_failure_time = 0;
    last_state_change = 0;
    total_opens = 0;
    total_closes = 0;
    config = record {
      enabled = true;
      failure_threshold = pos 5;
      recovery_timeout_seconds = pos 30;
    };
    is_enabled = true;
  };
  pool = record {
    connections = new_conn 10 ∷ [];
    active_count = 0;
    idle_count = 1;
    idle_timeout_sec = 60;
  };
}

abbrev ok_exchange : Exchange
ok_exchange = record { sent = pos 0; status = pos 200; body = codes "hi"; body_len = 2 }

proxy_to_backend_pooled-Returned_example :
    Returned backend.pool
      (proxy_to_backend_pooled proxied h2_response_init backend 20 21
        (λ i. true)
        ok_exchange).2.pool
      0
proxy_to_backend_pooled-Returned_example =
    proxy_to_backend_pooled-Returned proxied h2_response_init backend 20 21 0 (λ i. true)
      ok_exchange (record { active = refl; idle = refl; small = omega arith })

route_request_h2-status_example :
    (route_request_h2 files no_reads refusing false two_routes
      (codes "/a/x")
      h2_response_init).1.status_code
    ≡ expected_status
        (lookup_static_file files two_routes (codes "/a/x"))
        (proxied_on refusing h2_response_init (find_reverse_proxy_route (codes "/a/x") two_routes))
unfolding str_eq
route_request_h2-status_example =
    route_request_h2-status files no_reads refusing false two_routes (codes "/a/x") h2_response_init
      refl refl is_answered_501
