-- ===== src/Pldmd/FwUpdate.antt =====
-- pldmd/src/firmware_update.cpp: the update agent, which takes one firmware device through an update.
pub mod Codec
pub mod Link
pub mod Parts
pub mod State
pub mod Kept
pub mod Commands
pub mod Components
pub mod Download
pub mod Completions
pub mod Run
pub mod Start
mod Tests
