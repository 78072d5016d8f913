-- ===== src/Cloud.antt =====
-- apps/cloud-api/src/main.rs
pub mod Errors
pub mod Columns
pub mod Database
pub mod Tx
pub mod Libraries
pub mod CardKeys
pub mod Statements
pub mod Orders
pub mod Payments
pub mod Access
pub mod Devices
pub mod TestAccess
pub mod Accounts
pub mod Skybridge
pub mod Service
pub mod Examples
