-- ===== src/Pldmd/Pdr.antt =====
-- pldmd/src/pdr_manager.cpp: the PDRs of a terminus, and what is made of them.
pub mod Association
pub mod Names
pub mod Hierarchy
pub mod Transfer
pub mod Repository
pub mod Manager
mod Tests
