-- ===== src/Aes.antt =====
-- aes.cpp: the block cipher and the password file that it keeps.
pub mod Tables
pub mod Field
pub mod Rounds
pub mod Cipher
pub mod Password
mod Tests
