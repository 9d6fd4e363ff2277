-- ===== src/Server/Http1/Pipelined.antt =====
-- What src/server.c does with the bytes behind the head of a request.
