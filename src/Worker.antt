-- ===== src/Worker.antt =====
-- rpa_platform/worker: the scheduler, the check of the logins and the runner of the skeleton.
pub mod Ends
pub mod Login
pub mod BindRunner
pub mod Diagnostics
pub mod ClientConfig
pub mod Dispatch
pub mod TaskHandlers
pub mod Runtime
pub mod LoginRecovery
pub mod RecoveryHandler
pub mod Runner
pub mod Hybrid
pub mod Scheduler
pub mod RealRecovery
pub mod UnattendedWrite
