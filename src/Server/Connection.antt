-- ===== src/Server/Connection.antt =====
-- A client of src/server.c from the TLS handshake to the end of its task, and the loop that takes clients in.
pub mod Closed
use emme.Prelude.{
  ℕ, ◌+◌, ◌-◌, Bool, true, false, not, if◌then◌else◌, ltb, leb, ◌&&◌, ◌||◌, ℤ, pos, negsuc, leb_ℤ,
  Option, none, some, List, [], ◌∷◌, ◌++◌, Bytes, codes, str_eq,
}
use emme.IpLimiter.{IpLimiter, compact}
use emme.Server.{Server, ShutdownState, is_running}

-- One SSL_accept: done, a wish to read or write, with the time since the start and the io_uring calls that
-- wait for it (get_sqe, submit, wait_cqe), or a failure
pub data Attempt : Type 0 where
  accepted failed : Attempt
  waits : ℕ → Bool → Bool → Bool → Attempt

-- `perform_nonblocking_ssl_accept`: `none` while it goes on, then whether it succeeds
unfoldable pub perform_ssl_accept : ℤ → List Attempt → Option Bool
perform_ssl_accept timeout_ms [] = none
perform_ssl_accept timeout_ms (accepted ∷ more) = some true
perform_ssl_accept timeout_ms (failed ∷ more) = some false
perform_ssl_accept timeout_ms (waits elapsed_ms entry submitted woken ∷ more) =
    let rest = perform_ssl_accept timeout_ms more in
    if not (leb_ℤ (pos elapsed_ms) timeout_ms)
    then some false
    else if entry && (submitted && woken)
    then rest
    else some false

-- What is done to a client's descriptor and its TLS object
pub data ClientStep : Type 0 where
  ssl_shutdown ssl_free close_socket serve_http1 serve_http2 : ClientStep

-- `handle_client`, by whether SSL_new succeeds, what the handshake comes to and the protocol that was chosen;
-- `handle_http1_connection` shuts down and closes at its end, `handle_http2_connection` does not.
unfoldable pub handle_client : Bool → Bool → Bytes → List ClientStep
handle_client ssl_made shaken alpn =
    if not ssl_made
    then close_socket ∷ []
    else if not shaken
    then ssl_free ∷ close_socket ∷ []
    else (if str_eq alpn (codes "h2")
        then serve_http2 ∷ []
        else serve_http1 ∷ ssl_shutdown ∷ close_socket ∷ [])
      ++ (ssl_shutdown ∷ ssl_free ∷ close_socket ∷ [])

abbrev pub closes : List ClientStep → ℕ
closes [] = 0
closes (close_socket ∷ steps) = 1 + closes steps
closes (ssl_shutdown ∷ steps) = closes steps
closes (ssl_free ∷ steps) = closes steps
closes (serve_http1 ∷ steps) = closes steps
closes (serve_http2 ∷ steps) = closes steps
