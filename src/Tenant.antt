-- ===== src/Tenant.antt =====
-- Tenants: their groups of settings, the JSON configuration, and the live tenant.
pub mod Group
pub mod Json
pub mod Outcome
pub mod Remapping
pub mod Values
pub mod Services
pub mod Configure
pub mod After
pub mod Sound
pub mod Kept
pub mod Keys
pub mod Live
pub mod Registry
mod Tests
