-- ===== src/Idle.antt =====
-- src/resumable/common/idle.rs and src/traits/component/idle.rs: the idle policies.
pub mod Park
pub mod Search
mod Examples
