-- ===== src/Pldmd.antt =====
-- The PLDM daemon, pldmd: the parts of it that are modelled.
pub mod TidMapper
pub mod Transport
pub mod Base
pub mod Sensor
pub mod PackageImage
pub mod FwUpdate
pub mod Pdr
pub mod Fru
