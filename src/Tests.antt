-- ===== src/Tests.antt =====
-- Concrete inputs for the theorems: the crates' containers as lists, and a codec.
pub mod Crate
pub mod Resolver
pub mod Journal
pub mod Relay
pub mod Dns
pub mod Http
pub mod Udpgw
pub mod Bypass
pub mod Server
pub mod Icmp
pub mod Routing
pub mod Names
pub mod MainLoop
