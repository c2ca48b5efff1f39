-- ===== src/Sonic.antt =====
-- crates/enforce-sonic: the dataplane backend over the SONiC databases.
pub mod Db
pub mod Vlan
pub mod Schema
pub mod Database
pub mod Redis
pub mod Enforcer
