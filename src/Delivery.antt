-- ===== src/Delivery.antt =====
-- The delivery service (services/delivery/src/mvp_delivery).
pub mod Models
pub mod Runtimes
pub mod Execution
pub mod Configuration
pub mod Store
pub mod Service
pub mod Jobs
pub mod Database
pub mod Rows
pub mod Consumer
pub mod Dispatcher
pub mod Activity
pub mod Workflow
mod Witnesses
