-- ===== src/Tests.antt =====
-- Runs at concrete inputs, and the theorems at inputs where their hypotheses hold.
mod SegmentTrees
mod Dependencies
mod Traces
mod Operations
mod Writes
mod Merging
mod PinTraces
mod Grouping
mod Schedules
