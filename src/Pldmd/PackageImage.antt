-- ===== src/Pldmd/PackageImage.antt =====
-- pldmd/src/pldm_fwu_image.cpp: the package that an update is made from.
pub mod Image
pub mod Components
pub mod Devices
pub mod Header
mod Tests
