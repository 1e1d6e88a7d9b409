-- ===== src/Frame.antt =====
-- The frame builders and parsers of tools/exe-harness/harness.js: plain functions on byte arrays.
pub mod Checksum
pub mod Ip
pub mod Arp
pub mod Icmp
pub mod Dns
pub mod Ntp
pub mod Dhcp
pub mod Udp
pub mod Tcp
mod Tests
