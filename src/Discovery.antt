-- ===== src/Discovery.antt =====
-- core/core/services/device_discovery and its user in app: the tasks that find devices.
pub mod Task
pub mod Icmp
pub mod Service
pub mod App
pub mod Arp
