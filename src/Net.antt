-- ===== src/Net.antt =====
-- core/core/net: the addresses and what is built on them.
pub mod Bytes
pub mod Text
pub mod Scan
pub mod IPv4Address
pub mod MacAddress
pub mod Packet
pub mod Scanner
pub mod Socket
pub mod NetworkInterface
