-- ===== src/Snmp.antt =====
-- The SNMP simulation, crates/protocol-simulation-engine/src/simulation/snmp.rs.
pub mod Ber
pub mod Request
pub mod Mib
pub mod Response
pub mod Server
mod Tests
