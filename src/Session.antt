-- ===== src/Session.antt =====
-- session/: the principal, its projection from claims, and the managers that keep a session.
pub mod KeyedMutex
pub mod Settings
pub mod Value
pub mod Principal
pub mod Passport
pub mod Cookie
pub mod Sealer
pub mod Record
pub mod Manager
pub mod Fixtures
pub mod State
pub mod Interface
pub mod Identity
