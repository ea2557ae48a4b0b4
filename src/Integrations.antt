-- ===== src/Integrations.antt =====
-- rpa_platform/integrations: the clients of the two back ends. The transport is an argument: it gives
-- the answer to a request, a dict, or the exception that the request ends in. No method makes the
-- same request twice, so that one answer for a request is enough.
pub mod Answers
pub mod Jdy
pub mod Wecom
