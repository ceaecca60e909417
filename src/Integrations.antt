-- ===== src/Integrations.antt =====
-- The integrations service (services/integrations/src/mvp_integrations): connections to source
-- control, their repositories, and pull requests.
pub mod Models
pub mod Store
pub mod Providers
pub mod Service
pub mod Witnesses
