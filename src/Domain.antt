-- ===== src/Domain.antt =====
-- crates/domain/src/lib.rs
pub mod Task
pub mod Account
pub mod Identity
mod Examples
