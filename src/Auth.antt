-- ===== src/Auth.antt =====
-- auth/: the gates that find and ask for a principal, the identity that is handed to backends and to
-- other gateways, and the endpoints of the browser's sign-in.
pub mod LoginState
pub mod Gates
pub mod Bearer
pub mod Assertion
pub mod Projection
pub mod Endpoints
mod Tests
