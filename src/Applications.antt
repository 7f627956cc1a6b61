-- ===== src/Applications.antt =====
-- The volunteer application module, app/domain/volunteer_applications.
pub mod StateMachine
pub mod Store
pub mod Service
pub mod Workflow
