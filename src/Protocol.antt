-- ===== src/Protocol.antt =====
-- rpa_platform/worker/websocket_protocol.py and websocket_client.py: the messages between a worker
-- and the platform.
pub mod Envelopes
pub mod Client
