-- ===== src/Nic.antt =====
-- include/nic: the checksum, the addresses, and the packets of each protocol.
pub mod Typestate
pub mod Mac
pub mod Checksum
pub mod Arp
pub mod Ethernet
pub mod Ip
pub mod Icmp
pub mod Padding
pub mod Device
pub mod Setup
pub mod Packet
