-- ===== src/Snmp.antt =====
-- core/core/net/snmp and the factory of app: SNMP requests, their targets and their values.
pub mod Values
pub mod Target
pub mod Factory
pub mod Client
pub mod Oids
pub mod Service
