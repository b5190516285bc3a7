-- ===== src/Clients.antt =====
-- The services around the bridge: the pipeline that chats go through, the bridge's synchronisation
-- with it, and the gateway.
pub mod Pipeline
pub mod Sync
pub mod Gateway
