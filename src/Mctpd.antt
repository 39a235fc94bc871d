-- ===== src/Mctpd.antt =====
-- The MCTP daemon, mctpd: the parts of it that are modelled.
pub mod EidPool
pub mod Transmission
pub mod SendReceive
pub mod Control
pub mod DeviceWatcher
