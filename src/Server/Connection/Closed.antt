-- ===== src/Server/Connection/Closed.antt =====
-- How often src/server.c closes the socket of a client, and when the handshake ends.
use emme.Prelude.{
  ℕ, ◌≡◌, refl, Bool, true, false, not, if◌then◌else◌, ◌&&◌, leb_ℤ, ℤ, pos, Option, some, List, [],
  ◌∷◌, ◌++◌, Bytes, codes, str_eq, arith, if_both,
}
use emme.Server.Connection.{
  Attempt, accepted, failed, waits, perform_ssl_accept, handle_client, closes,
}

-- `handle_client` closes the socket of its client twice if the handshake succeeds and the client does not speak
-- HTTP/2, and once in every other case.
pub handle_client-closes :
    (ssl_made shaken : Bool) (alpn : Bytes)
    → closes (handle_client ssl_made shaken alpn)
      ≡ (if ssl_made && (shaken && not (str_eq alpn (codes "h2"))) then 2 else 1)
unfolding handle_client
handle_client-closes ssl_made shaken alpn = ground arith

-- The handshake ends with the first attempt that waits past the timeout, if it has not ended before.
pub perform_ssl_accept-ends :
    (timeout_ms : ℤ) (before : List Attempt) (elapsed : ℕ) (entry submitted woken : Bool)
    → leb_ℤ (pos elapsed) timeout_ms ≡ false
    → (b : Bool) × (perform_ssl_accept timeout_ms
          (before ++ (waits elapsed entry submitted woken ∷ []))
        ≡ some b)
unfolding perform_ssl_accept
perform_ssl_accept-ends timeout_ms [] elapsed entry submitted woken late =
    (false, ground (arith, late))
perform_ssl_accept-ends timeout_ms (accepted ∷ before) elapsed entry submitted woken late =
    (true, refl)
perform_ssl_accept-ends timeout_ms (failed ∷ before) elapsed entry submitted woken late =
    (false, refl)
perform_ssl_accept-ends timeout_ms (waits e a s w ∷ before) elapsed entry submitted woken late =
    let rest = perform_ssl_accept-ends timeout_ms before elapsed entry submitted woken late in
    if_both (λ (o : Option Bool). (b : Bool) × (o ≡ some b)) (not (leb_ℤ (pos e) timeout_ms)) _ _
      (false, refl)
      (if_both (λ (o : Option Bool). (b : Bool) × (o ≡ some b)) (a && (s && w)) _ _ rest
        (false, refl))
