-- ===== src/Router.antt =====
-- src/router.c: which route a request takes and what is answered.
pub mod Choice
pub mod Files
pub mod Inside
pub mod Header
pub mod Whole
pub mod Proxy
pub mod Lease
pub mod Dispatch
pub mod Answers
pub mod Sample
mod Examples
