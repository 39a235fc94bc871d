-- ===== src/Pldmd/Base.antt =====
-- pldmd/src/base.cpp: the discovery of PLDM termini: what they support, and the TIDs they get.
pub mod TidPool
pub mod Requests
pub mod Versions
pub mod Tables
pub mod Discovery
mod Tests
