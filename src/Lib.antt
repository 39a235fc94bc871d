-- ===== src/Lib.antt =====
-- A model of the parts of pmci that take a PLDM firmware device through an update, of pldmd's discovery
-- of termini, their PDRs, FRU data and numeric sensors, and of mctpd's pool of endpoint ids, its queues of outgoing
-- messages and its watch over failing devices, with the theorems that hold of them.
--
-- The program. pldmd talks PLDM to termini, each known by a TID, that sit behind MCTP endpoints, each
-- known by an EID. Its firmware update agent opens a package, matches its device records against the
-- registered termini and runs one update after the other: request the update, serve package data, fetch
-- meta data, pass the component table, and for each component serve its image and take the device's
-- three reports; at the end the new firmware is activated. mctpd owns the bus, hands out EIDs, and
-- sends each request with one of the eight tags of its endpoint.
--
-- The files and the code they model, by path from the repository's root:
--   Mctpd/EidPool          mctpd/src/utils/eid_pool.cpp, class EidPool; Queue: the pool as a queue
--   Mctpd/Transmission     mctpd/src/utils/transmission_queue.cpp, class MctpTransmissionQueue; TagBits:
--                          its byte of tags; Wellformed, Release, Owners, Queueing, Draining and Events: what
--                          the tags and queues keep, and how they empty
--   Mctpd/SendReceive      mctpd/src/MCTPBinding.cpp: the D-Bus method SendReceiveMctpMessagePayload;
--                          Invariant and Outcomes: every state, and every end of a call
--   Mctpd/Control          mctpd/src/MCTPBinding.cpp: the queue of control requests; Timeouts and
--                          Responses: how a request ends
--   Mctpd/DeviceWatcher    mctpd/src/utils/device_watcher.cpp, and its use in SMBusBinding.cpp; Views and
--                          Streaks: one device on its own, and when it is ignored
--   Pldmd/TidMapper        pldmd/src/pldmd.cpp, struct TIDMapper; Bijection: its two look-ups
--   Pldmd/Transport/Bus    pldmd/src/pldmd.cpp: bandwidth reservation, instance ids, headers
--   Pldmd/Transport/Exchange  pldmd/src/pldmd.cpp: sendReceivePldmMessage, sendPldmMessage;
--                          Reservation, Retry and Post: what they guarantee
--   Pldmd/Base/*           pldmd/src/base.cpp, the discovery of termini:
--     TidPool      struct TIDPool
--     Requests     GetPLDMTypes, GetTID and the others; Versions: getPLDMVersions; Fetch: its loop
--     Tables       the tables of versions and commands; Announced: what stands in them
--     Discovery    baseInit, deleteDeviceBaseInfo and the reclaim timers; Outcome and Return:
--                  what a registration leaves, and a terminus that comes back
--   Pldmd/Pdr/*            pldmd/src/pdr_manager.cpp, class PDRManager:
--     Transfer     the fetch of the records; Parts and Bounds: what a record is made of, and how much
--                  is asked for and kept
--     Repository   addDevicePDRToRepo and constructPDRRepo; Locator: what a built repository holds
--     Association  entity association PDRs and their tree; Search, Insertion, Attach and Reachable:
--                  what the tree's operations do, and which entities it has
--     Names        getAuxName and the records with names; English: which text a name
--                  becomes; RoundTrip and Shared
--     Hierarchy    paths and object paths; Exposed: which entities have an object
--     Manager      the other records, and pdrManagerInit; States, Outcome and Ready: their values, and
--                  the objects that are left
--   Pldmd/Fru/*            pldmd/src/fru.cpp and pldmd/include/fru.hpp:
--     Table        class PLDMFRUTable; RoundTrip: what its parser reads of the bytes of records
--     Transfer     the commands that fetch metadata and table
--     Store        runGetFRUCommands, deleteFRUDevice, setFruRecordTableCmd and what they keep; Stored
--                  and Consistent: the outcome of a run, and what holds in every state
--   Pldmd/Sensor           pldmd/src/numeric_sensor.cpp and thresholds.cpp; Alarms and Errors: a reading's
--                          effect on the alarms, and failed readings
--   Pldmd/PackageImage/Image  pldmd/include/pldm_fwu_image.hpp, and readData of pldm_fwu_image.cpp
--   Pldmd/PackageImage/Components  processCompImgInfo of pldmd/src/pldm_fwu_image.cpp; RoundTrip
--   Pldmd/PackageImage/Devices  processDevIdentificationInfo there, and unpackDescriptors of
--                          pldmd/src/fwu_utils.cpp; Matched, Registered and Pairs: the
--                          termini that are matched
--   Pldmd/PackageImage/Header  processPkgHdr; Accepted and Sound: what an accepted package has
--   Pldmd/FwUpdate/*       pldmd/src/firmware_update.cpp, class FWUpdate and what starts it:
--     Codec        the constants, and the encoders and decoders of libpldm as a record Libpldm
--     Link         the incoming requests, the timers and the reservation; Callback: msgRecvCallback
--     State        the fields of FWUpdate, and the requests that are prepared from the package
--     Commands     requestUpdate, getDeviceMetaData, sendPackageData, sendMetaData
--     Components   passComponentTable, updateComponent, activateFirmware and the two cancels
--     Parts        package data and meta data in parts; Cover: the parts put together
--     Download     requestFirmwareData; Portion: which bytes are served
--     Completions  transferComplete, verifyComplete, applyComplete
--     Run          runUpdate; Steps, Phases, Activation and Reports: where it leaves the device
--     Start        StartFWUpdate, initUpdate, deleteFWDevice; Outcome and Status: what is left
--                  and what is reported
--   Prelude      shared names, Boolean tests, list lemmas, maps with numeric keys
--
-- How the code is modelled. Names are the source's, in snake case. A method becomes a function from the
-- state to the state and its return code; a constant return code is a number. State that the coroutine
-- shares with callbacks is the record Link; each place where the coroutine waits (a timer, an answer, a
-- post, a write to D-Bus) takes one entry of a list that says which messages arrived and which timers
-- fired during the wait, so a theorem about all lists is one about all interleavings at the waits. The
-- MCTP wrapper is a script of answers, and everything handed to it is recorded on `wire`.
--
-- Numbers are natural numbers, and a width is written out where the code can exceed it. Loops run on
-- the number of rounds that the source bounds them by: retries, findMaxNumReq, the number of components;
-- a loop over the bits of a uint64_t has 64 rounds. The maps with numeric keys are sorted lists.
--
-- In mctpd a message that the queue and a sender share is an index into a heap. libmctp takes or refuses
-- a packet as any function of the packets before it may say. Calls, packets, posted functions and ends
-- of waits are the steps of a relation, in any order; a wait may end at any time.
--
-- The numbers of a sensor are of an unknown type with the operations of `double` that the source uses.
-- Their laws, where a theorem needs them, are those of IEEE 754 on NaN.
--
-- libpldm's repository of PDRs is an unknown type with the operations that the source uses, and the order
-- in which a loop goes through an unordered_map is a function of the map. A node of the association
-- tree is known by its position; a search of the tree has a round for each node and one more. Where a
-- name is read outside a record, makes the conversion throw, or is shared by a range of instances in
-- an endless loop, pdrManagerInit has no result.
--
-- The parser of a FRU table has as much fuel as the table has bytes, and each record takes some. Where it
-- would read outside of the table, or from an address in it, that is its result. A table comes in at most
-- ninety-nine parts, as many as the source's limit allows.
--
-- The iterator over a package's header is the bytes from it to the end of the header. The checksum
-- function is a parameter, since libpldm defines it; Start takes what the parser makes of a package as
-- an input, where reading a header may also throw.
--
-- Not modelled: libpldm, the MCTP libraries, D-Bus objects, logging, and the parts of pldmd and mctpd
-- that have to do with reading sensors, with the control of effecters, the IPMI form of FRU data and bindings. The commands for FRU data run one after the other. Of
-- getBindingPrivateData only what it gives is taken, and discoveries of termini run one after the other.
pub mod Mctpd
pub mod Pldmd
pub mod Prelude
