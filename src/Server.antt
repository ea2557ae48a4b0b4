-- ===== src/Server.antt =====
-- rpa_platform/server: what its requests do with the store.
pub mod Webhook
