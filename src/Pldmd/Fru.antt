-- ===== src/Pldmd/Fru.antt =====
-- pldmd/src/fru.cpp: the FRU data of termini. `Table` is the parser of a table, `Transfer` fetches
-- it, and `Store` keeps it.
pub mod Table
pub mod Transfer
pub mod Store
pub mod Tests
