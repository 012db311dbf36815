-- ===== src/Network.antt =====
-- windows/flowtype-app/src/network_server.rs: what the app does with a phone's messages, over the
-- injector as a service (`request`), and who holds which connection.
pub mod World
pub mod Messages
pub mod Acks
pub mod Dispatcher
pub mod Unsettled
pub mod Broken
pub mod Injected
pub mod Replays
pub mod Progress
pub mod Limiter
pub mod Connection
pub mod CleanUp
