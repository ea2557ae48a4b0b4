-- ===== src/Domain.antt =====
-- rpa_platform/domain: the task state machine, the validation of flow steps, and redaction.
pub mod StateMachine
pub mod FlowSteps
pub mod Redaction
