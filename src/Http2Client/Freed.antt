-- ===== src/Http2Client/Freed.antt =====
-- What a failed connection attempt of src/http2_client.c leaves to be freed.
use emme.Prelude.{Bool, true, false, not, ◌&&◌, ◌≡◌, none, some, ◌↔◌, codes, str_eq, arith}
use emme.Http2Client.Client.{Client}
use emme.Http2Client.Connect.{
  ConnectCalls, client_init, client_connect, connect_to_backend, shake, negotiate, greet,
  client_cleanup,
}

-- The session is made: everything in front of it succeeds.
abbrev pub reaches_session : ConnectCalls → Bool
reaches_session calls =
    calls.context_made
    && (calls.ssl_made
        && (elim (shake calls.handshake) [ none ↦ false | some ok ↦ ok ]
            && (elim calls.alpn [ none ↦ false | some name ↦ str_eq name (codes "h2") ]
                && calls.session_made)))

-- After an attempt to connect a new client, `http2_client_cleanup`, which the callers run also where it failed,
-- frees an object or closes a descriptor a second time exactly if the socket was was_opened and the attempt gave
-- up before the session was made.
pub client_connect-freed :
    (calls : ConnectCalls) (ok : Bool) (c : Client)
    → client_connect calls (client_init true).1 ≡ some (ok, c)
    → ((client_cleanup c ≡ none)
        ↔ ((connect_to_backend calls && not (reaches_session calls)) ≡ true))
unfolding client_init client_connect negotiate greet client_cleanup
client_connect-freed calls ok c h = ground (arith, h)
