-- ===== src/Service.antt =====
-- The use cases of licensing-master/src/service.py.
pub mod Rows
pub mod Outcomes
pub mod Reads
pub mod Seats
pub mod Activation
pub mod Devices
pub mod Status
pub mod BaseUrl
pub mod Detail
pub mod Tenants
pub mod Lifecycle
pub mod Billing
pub mod Accounting
pub mod Ownership
pub mod Soundness
pub mod Races
