-- ===== src/Tests.antt =====
-- Concrete inputs, and the theorems applied to them.
mod Data
mod Scanning
mod Settling
mod Addresses
mod Suites
mod Numbers
mod Devices
mod Sharing
mod Discovering
mod Tasks
mod Snmp
mod Calling
mod Sockets
mod Threads
mod Lifetimes
mod Program
mod Whole
mod Writing
