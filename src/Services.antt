-- ===== src/Services.antt =====
-- rpa_platform/services.
pub mod Bind
pub mod Preflight
pub mod Write
