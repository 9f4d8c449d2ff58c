-- ===== src/Prepare.antt =====
-- max9296Prepare.h and max9296Prepare.cpp: the camera power-up transaction of both CSI domains.
pub mod Types
pub mod Targets
pub mod Number
pub mod Status
pub mod Classify
pub mod Writes
pub mod Generation
pub mod Transaction
pub mod Coordinator
mod Tests
