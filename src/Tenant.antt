-- ===== src/Tenant.antt =====
-- internal/tenant: the daemon on a machine that owns instances or joins them.
pub mod Naming
pub mod Table
pub mod Find
pub mod Found
pub mod Folded
pub mod Admit
pub mod Admitted
pub mod LetIn
pub mod State
pub mod Devices
