-- ===== src/Terminal.antt =====
-- terminal/: the handlers at the end of a route.
pub mod Forward
pub mod Aggregate
pub mod Static
pub mod Proxy
pub mod Health
