-- ===== src/Util.antt =====
-- util.cpp: the helpers that keep a state or report errors. Texts are byte lists without their zero
-- byte; what the file system answers is an argument.
pub mod LogOnce
pub mod Hex
pub mod Files
mod Tests
