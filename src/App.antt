-- ===== src/App.antt =====
-- registry/, gateway/ and app/: from resources to the handler of a gateway.
pub mod Registry
pub mod Gateway
pub mod Parse
pub mod Plugins
pub mod Routes
pub mod Assembled
