-- ===== src/PacketFilter.antt =====
-- pkg/packetfilter: the rules of a packet filter (packetfilter.go), and the adapter that keeps
-- rules in a chain over a driver (adapter.go). The driver, iptables or nftables, is a parameter.
pub mod Rules
pub mod Adapter
mod Members
pub mod Chains
pub mod Prepend
pub mod Several
pub mod Update
pub mod Specs
pub mod Simulation
pub mod IpTables
mod Tests
