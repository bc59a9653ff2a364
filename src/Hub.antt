-- ===== src/Hub.antt =====
-- internal/hub: the daemon on the public address.
pub mod Types
pub mod Ipam
pub mod Subnet
pub mod Name
pub mod Store
pub mod Admission
pub mod Decision
pub mod Ban
pub mod History
pub mod Routes
pub mod Settings
pub mod Api
pub mod Create
pub mod CertName
