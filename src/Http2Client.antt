-- ===== src/Http2Client.antt =====
-- include/http2_client.h and src/http2_client.c: the HTTP/2 client that talks to a backend. nghttp2, OpenSSL
-- and the sockets are not in the repository: what their calls return, and the callbacks that nghttp2 makes
-- while it receives, are arguments.
pub mod Client
pub mod Connect
pub mod Request
pub mod Received
pub mod BodySent
pub mod Reused
pub mod Freed
pub mod Status
mod Examples
