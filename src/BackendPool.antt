-- ===== src/BackendPool.antt =====
-- include/backend_pool.h and src/backend_pool.c: the circuit breaker, the pool of connections to a
-- backend, and the health checker.
pub mod Breaker
pub mod Connections
pub mod HealthCheck
mod Examples
