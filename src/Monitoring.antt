-- ===== src/Monitoring.antt =====
-- homeinfra/monitoring.py: groups, devices, collections and alerts. The children are the parts
-- of the file.
pub mod Values
pub mod Thresholds
pub mod Smart
pub mod Alerts
pub mod Lookup
pub mod Public
pub mod Observable
pub mod Collections
pub mod Slug
pub mod Groups
pub mod Devices
pub mod Inventory
pub mod Schedule
