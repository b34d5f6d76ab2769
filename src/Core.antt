-- ===== src/Core.antt =====
-- The domain types of crates/yb-core: errors, wire formats, access policies, roles, key scopes and
-- the records of deployments.
pub mod Errors
pub mod Formats
pub mod Access
pub mod Roles
pub mod Scopes
pub mod Json
pub mod Reqlog
pub mod Deployments
pub mod RateLimit
pub mod Spend
pub mod Catalog
