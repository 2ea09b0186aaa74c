-- ===== src/MainLoop.antt =====
-- lib.rs: parts of the tunnel's main loop: the limit on sessions, the set-up and the relay of a TCP
-- session as a client of the trait ProxyHandler, and the DNS answers of an IPv4 tunnel.
pub mod Counts
pub mod Setup
pub mod SetUps
pub mod Sessions
pub mod Filter
pub mod Cuts
pub mod Direct
