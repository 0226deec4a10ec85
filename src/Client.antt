-- ===== src/Client.antt =====
-- packages/quiksync_client/quiksync_client: what the three adapters share.
pub mod TimeConv
pub mod Net
pub mod Auth
pub mod Http
pub mod Ws
mod Tests
