-- ===== src/Parser.antt =====
-- parser.cpp and parser.h: the settings of a run, their defaults and the checks on them.
pub mod Consts
pub mod Args
pub mod Init
pub mod Knobs
pub mod Check
pub mod Getters
pub mod Load
pub mod Options
pub mod Requests
mod Tests
