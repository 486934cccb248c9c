-- ===== src/MemoryGroups.antt =====
-- tools/PrintBug/GroupMemory.cpp: the addresses cut into groups, such that addresses that one
-- instruction uses are of one group.
pub mod Trees
pub mod Merging
pub mod Insts
pub mod Pass
pub mod Splitting
pub mod Union
pub mod Invariant
pub mod Consistent
pub mod Labels
pub mod Filling
pub mod Segments
pub mod Walk
