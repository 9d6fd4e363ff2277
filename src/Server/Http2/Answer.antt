-- ===== src/Server/Http2/Answer.antt =====
-- What an HTTP/2 stream of src/server.c is answered.
use emme.Prelude.{
  ℕ, ◌≤◌, ◌≡◌, refl, Bool, false, pos, Option, none, some, Bytes, codes, str_eq, arith,
}
use emme.Config.Types.{ServerConfig, Route}
use emme.Http2Response.{
  Http2Response, h2_response_init, h2_response_set_status, h2_response_set_content_type,
}
use emme.Router.Files.{FileSystem, ready, lookup_static_file}
use emme.Router.Dispatch.{
  route_request_h2, serve_static_h2, serve_lookup, static_body, file_response, after_static,
}
use emme.Server.Http2.{StreamData, on_request, submit_headers}

-- `route_request_tls` also without a path
abbrev pub routes :
    (Bytes → Http2Response → Bool × Http2Response)
    → Option Bytes
    → Http2Response
    → Bool × Http2Response
routes f none r = (false, r)
routes f (some path) r = f path r

module _ (fs : FileSystem) (read : Bytes → ℕ → Option Bytes)
    (forward : Route → Http2Response → Bool × Http2Response) (draining : Bool) (c : ServerConfig)
    (path : Bytes) (zero : Http2Response) (d : StreamData) where
  abbrev answer : Http2Response
  answer =
      (on_request (routes (route_request_h2 fs read forward draining c)) zero
        (record d { path = some path })).0

  unread_fails :
      (file type : Bytes) (size : ℕ)
      → str_eq path (codes "/health") ≡ false
      → str_eq path (codes "/") ≡ false
      → lookup_static_file fs c path ≡ ready file size type
      → size ≤ 32768
      → read file size ≡ none
      → route_request_h2 fs read forward draining c path zero ≡ (false, file_response type)
  unfolding route_request_h2 serve_static_h2 serve_lookup static_body after_static
  unread_fails file type size not_health not_root found small unread =
      ground (arith, not_health, not_root, found, unread)

  -- A static file that cannot be read is answered like an empty one, with 200 and a length of 0: the routing fails, but
  -- it has set the status before, and only a status of 0 becomes 500.
  pub on_request-unread :
      (file type : Bytes) (size : ℕ)
      → str_eq path (codes "/health") ≡ false
      → str_eq path (codes "/") ≡ false
      → lookup_static_file fs c path ≡ ready file size type
      → size ≤ 32768
      → read file size ≡ none
      → (answer.status_code ≡ pos 200) × (answer.body_len ≡ 0)
  unfolding on_request submit_headers file_response h2_response_set_content_type
      h2_response_set_status h2_response_init
  on_request-unread file type size not_health not_root found small unread =
      let failed = unread_fails file type size not_health not_root found small unread in
      rw failed (refl, refl)
