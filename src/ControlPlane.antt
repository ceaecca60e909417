-- ===== src/ControlPlane.antt =====
-- The control plane (services/control_plane/src/mvp_control_plane): organizations, projects, and
-- the way from a client's intake over an approved specification to a work item that is ready.
pub mod Models
pub mod Permissions
pub mod Store
pub mod Service
pub mod Outbox
pub mod Coherence
pub mod Histories
pub mod Authorization
pub mod Publication
pub mod Approvals
pub mod Witnesses
