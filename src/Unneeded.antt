-- ===== src/Unneeded.antt =====
-- ExtractUneededOperation of tools/PrintBug/PrintBug.cpp: which dynamic instructions of a trace
-- nothing needs.
pub mod Stacks
pub mod Instruction
pub mod Pass
pub mod Heights
pub mod Safety
pub mod Totality
pub mod Numbers
pub mod Growth
pub mod Reported
pub mod Dependencies
