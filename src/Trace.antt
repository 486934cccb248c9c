-- ===== src/Trace.antt =====
-- The trace of an instrumented run: the events, the buffers that write them and the iterator that
-- reads them back.
pub mod Bytes
pub mod Event
pub mod GetEvent
pub mod Iter
pub mod Reading
pub mod CircularBuffer
pub mod Workers
pub mod Schedules
pub mod Tracking
pub mod Closing
pub mod Ending
pub mod Joined
pub mod Ring
pub mod Holding
pub mod RoundTrip
pub mod Recorder
pub mod EventBuffer
