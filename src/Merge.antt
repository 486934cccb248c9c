-- ===== src/Merge.antt =====
-- tools/PrintBug/MergeTrace.cpp: the events of a trace cut into the blocks that the analyses walk.
pub mod Frames
pub mod Drain
pub mod Events
pub mod Flush
pub mod Depth
pub mod Rounds
pub mod Nesting
pub mod Advance
pub mod Validity
