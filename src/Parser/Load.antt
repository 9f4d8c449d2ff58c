-- ===== src/Parser/Load.antt =====
-- ParserClass::json_parser of parser.cpp: the settings that the runtime document gives.
pub mod Sections
pub mod Cameras
pub mod Document
