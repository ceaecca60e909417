-- ===== src/Delivery/Witnesses.antt =====
-- The delivery service at concrete inputs: data for tests, and each theorem where it applies.
mod Data
mod Executions
mod Services
mod Activities
mod Workflows
mod Events
mod Commands
