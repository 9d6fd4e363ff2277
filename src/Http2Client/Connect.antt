-- ===== src/Http2Client/Connect.antt =====
-- How the client of src/http2_client.c opens a connection to a backend, and how it gives everything back.
use emme.Prelude.{
  Bool, true, false, not, if◌then◌else◌, ◌&&◌, ◌>>=◌, pos, Option, none, some, List, [], ◌∷◌, Bytes,
  codes, str_eq,
}
use emme.Http2Client.Client.{Resource, absent, live, released, Client}

-- What connect returns
pub data Connected : Type 0 where
  connected in_progress refused : Connected

-- One SSL_connect: done; a wish to read or write with what poll then says; or a failure
pub data Handshake : Type 0 where
  shaken : Handshake
  wants : Bool → Handshake
  broken : Handshake

-- The results of the calls of `http2_client_connect`, in its order
pub record ConnectCalls : Type 0 where
  pub socket_opened : Bool
  pub is_address : Bool
  pub is_resolved : Bool
  pub connect_result : Connected
  pub context_made : Bool
  pub ssl_made : Bool
  pub handshake : List Handshake
  pub alpn : Option Bytes
  pub session_made : Bool
  pub settings_submitted : Bool
  pub preface_sent : Bool

-- All fields zero, and -1 for the socket
abbrev pub zero_client : Client
zero_client = record {
  ssl = absent;
  socket = absent;
  session = absent;
  callbacks = absent;
  method = [];
  path = [];
  host = [];
  request_body = [];
  request_body_len = 0;
  body_sent = 0;
  response_buffer = [];
  response_received = 0;
  response_status = pos 0;
  want_read = false;
  want_write = false;
  done = false;
  error_code = 0;
}

-- `http2_client_init`, with what nghttp2_session_callbacks_new does: whether it returns 0, and the client
unfoldable pub client_init : Bool → Bool × Client
client_init made =
    if made then (true, record zero_client { callbacks = live }) else (false, zero_client)

-- `connect_to_backend`: whether there is a socket. Where there is none, one that was was_opened has been closed.
unfoldable pub connect_to_backend : ConnectCalls → Bool
connect_to_backend calls =
    calls.socket_opened
    && ((if calls.is_address then true else calls.is_resolved)
        && elim calls.connect_result [ connected ↦ true | in_progress ↦ true | refused ↦ false ])

-- The loop over SSL_connect: `none` while it goes on
unfoldable pub shake : List Handshake → Option Bool
shake [] = none
shake (shaken ∷ more) = some true
shake (broken ∷ more) = some false
shake (wants polled ∷ more) = let rest = shake more in if polled then rest else some false

-- The object behind a pointer is freed: `none` where it was freed before.
abbrev pub free_resource : Resource → Option Resource
free_resource absent = some absent
free_resource live = some absent
free_resource released = none

-- `http2_client_cleanup`: `none` where an object is freed a second time, or a descriptor closed again
unfoldable pub client_cleanup : Client → Option Client
client_cleanup c = free_resource c.session >>= λ session. free_resource c.callbacks >>= λ callbacks.
    free_resource c.ssl >>= λ ssl. free_resource c.socket >>= λ socket.
    some (record c { session = session; callbacks = callbacks; ssl = ssl; socket = socket })

-- `SSL_free(client->ssl); SSL_CTX_free(ssl_ctx); close(client->socket_fd);`, which leaves the fields
abbrev pub give_up : Client → Client
give_up c = record c { ssl = released; socket = released }

-- The part behind the session
unfoldable pub greet : ConnectCalls → Client → Option (Bool × Client)
greet calls c =
    if calls.settings_submitted && calls.preface_sent
    then some (true, c)
    else client_cleanup c >>= λ c'. some (false, c')

-- The part behind the handshake
unfoldable pub negotiate : ConnectCalls → Client → Option (Bool × Client)
negotiate calls c =
    if elim calls.alpn [ none ↦ false | some name ↦ str_eq name (codes "h2") ]
    then (if calls.session_made
        then greet calls (record c { session = live })
        else some (false, give_up c))
    else some (false, give_up c)

-- `http2_client_connect`: `none` while the handshake goes on, or where an object is freed twice; otherwise
-- whether it returns 0, and the client.
unfoldable pub client_connect : ConnectCalls → Client → Option (Bool × Client)
client_connect calls c =
    if not (connect_to_backend calls)
    then some (false, record c { socket = absent })
    else if not calls.context_made
    then some (false, record c { socket = released })
    else if not calls.ssl_made
    then some (false, record c { ssl = absent; socket = released })
    else shake calls.handshake >>= λ ok.
        if ok
        then negotiate calls (record c { ssl = live; socket = live })
        else some (false, give_up (record c { ssl = live; socket = live }))
