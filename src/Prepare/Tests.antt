-- ===== src/Prepare/Tests.antt =====
-- The code of max9296Prepare.cpp at concrete inputs.
mod Inputs
mod Coordinator
mod Parts
