-- ===== src/Lib.antt =====
-- Slimmer finds operations whose results are never needed. An instrumented program writes a trace;
-- print-bug (tools/PrintBug) reads it, cuts it into blocks, groups the memory addresses, extracts
-- the memory dependencies and walks the trace backwards.
--
-- SegmentTree.antt is include/SegmentTree.hpp: the tree over the 64-bit addresses as a data type
-- with a constructor for each type of node; set, get, collect2 and collect are Set, Get, Collect2
-- and Collect. Set recurs on fuel, the width of the node, which is enough since both halves of a
-- split are narrower. Program.antt has the records of include/SlimmerUtil.h and
-- include/SlimmerTools.h. MemoryDependency.antt is tools/PrintBug/ExtractMemoryDependency.cpp, one
-- function for each loop and branch. Its test for an atomic instruction stands inside the branch for
-- loads, so that the code leaves the writes of these out; the account of the last writers has them,
-- and is compared where no memory access is of an atomic instruction.
--
-- Trace.antt is the trace between the two programs. Trace/Event.antt has the labels and sizes of
-- include/SlimmerUtil.h and the bytes that the record functions of
-- lib/SlimmerRuntime/SlimmerRuntime.cpp write; Trace/CircularBuffer.antt is that file's
-- CircularBuffer, Trace/GetEvent.antt is GetEvent of lib/SlimmerUtil/Routines.cpp with offsets in
-- place of pointers, Trace/Iter.antt is TraceIter of tools/PrintBug/Util.cpp, and
-- Trace/Recorder.antt has the tests by which a record function sets the length of a write that
-- changes nothing to 0, with memcmp as a parameter. Trace/EventBuffer.antt is EventBuffer of
-- lib/SlimmerUtil/EventBuffer.cpp, which the Pin tool fills, with CompressBuffer. LZ4 is a
-- parameter, the record Lz4: a block no longer than COMPRESS_BLOCK_SIZE comes back as it was, and
-- its compressed length fits a 64-bit word.
--
-- Trace/Workers.antt has the threads around the circular buffer: a schedule is a list of steps,
-- each an append under the lock, a part of CloseBufferFile, or a loop test or a block of
-- CompressTrace or DumpCompressed; a step that would wait has no result. The semaphores of the 150
-- buffers are differences of the numbers of blocks handed over, compressed and dumped.
-- CloseBufferFile sets the flags that stop the two workers before it signals the last block, so
-- that a worker that has not come to that block leaves it out: what is said of the whole file is of
-- schedules in which both have. A worker that waits for a block that never comes is never joined
-- (Tests/Schedules.antt). Events that are recorded while the buffer is being closed are left out.
-- Trace/Schedules.antt, Trace/Tracking.antt, Trace/Closing.antt and Trace/Ending.antt have the
-- lemmas on schedules, Trace/Joined.antt what they come to, and Trace/Ring.antt the bounds of the
-- ring. An fwrite is repeated until all bytes are out and stands as one. The loop around NextEvent
-- recurs on fuel, of which one more than the number of events is enough.
--
-- Unneeded.antt is the backward pass of tools/PrintBug/PrintBug.cpp. Unneeded/Instruction.antt has
-- OneInstruction and IsReturnVoid, Unneeded/Stacks.antt the stacks of each thread, and
-- Unneeded/Pass.antt OneBlock and ExtractUneededOperation, one function for each branch of the
-- loop's body. The globals that the pass only reads are the record Facts; Addr2Unneded is passed on.
-- Reading the top of an empty stack has no result.
--
-- Merge.antt is tools/PrintBug/MergeTrace.cpp: Merge/Frames.antt has its maps and the making of a
-- block, Merge/Drain.antt the loop that moves a frame on, Merge/Events.antt the handler of each event
-- and IsImpactfulFunction of lib/SlimmerUtil/Routines.cpp, and Merge/Flush.antt the end and
-- MergeTrace itself. It reads the events with what `*tid_ptr` holds at each, which for an event
-- without a thread is what the pointer was left at. Its loop over the frames recurs on the stack;
-- where the code would go round for ever there is no result. Blocks.antt says what the analyses may
-- rely on in a block trace, and Pipeline.antt puts the stages together.
--
-- Pin.antt is the three routines of tools/PinTool/PinTrace.cpp that append events; a run of the
-- program is the list of their calls. Pin/Calls.antt is tools/PrintBug/ExtractImpactfulFunCall.cpp:
-- its loops recur on fuel, the bytes left in the block and in the file, which is enough since every
-- event and every block takes some. Pin/Outermost.antt tells from the calls alone which functions
-- enter the kernel.
--
-- MemoryGroups.antt is tools/PrintBug/GroupMemory.cpp: MemoryGroups/Trees.antt merges segment trees,
-- on fuel, the width of the trees; MemoryGroups/Merging.antt has the globals and Merging on a set of
-- groups, MemoryGroups/Insts.antt MergeInst, and MemoryGroups/Pass.antt Collect and GroupMemory. The
-- order in which C++ merges the two halves is open; here the left one comes first.
--
-- Not modelled are the post-dominators and the printed report of tools/PrintBug/PrintBug.cpp, the
-- loader of the instruction file, the part of the Pin tool that selects the calls to instrument, and
-- the parts that are calls into LLVM or ptrace.
--
-- Numbers are unbounded but for the split point of the segment tree, whose wrap-around is written
-- out. A std::set or std::map is a list in increasing order of its keys. An access
-- out of a vector's bounds has no result.
pub mod Base
pub mod SegmentTree
pub mod Program
pub mod Blocks
pub mod MemoryDependency
pub mod Trace
pub mod Pin
pub mod Merge
pub mod MemoryGroups
pub mod Unneeded
pub mod Pipeline
mod Tests
