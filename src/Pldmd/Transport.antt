-- ===== src/Pldmd/Transport.antt =====
-- pldmd/src/pldmd.cpp: the daemon's messages to and from termini, over MCTP.
-- The MCTP wrapper's answers come from scripts in the state, one entry for each call; an exhausted
-- script answers with a failure. What the daemon hands to the wrapper is kept in `wire`, newest first.
pub mod Bus
pub mod Exchange
pub mod Reservation
pub mod Retry
pub mod Post
mod Tests
