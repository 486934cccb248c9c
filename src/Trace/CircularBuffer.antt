-- ===== src/Trace/CircularBuffer.antt =====
-- CircularBuffer of lib/SlimmerRuntime/SlimmerRuntime.cpp as the appending threads see it: the lock
-- makes an append one step. What becomes of the blocks that are handed over is in Trace/Workers.antt.
use slimmer.Base.{ℕ, ◌+◌, ◌-◌, List, [], ◌∷◌, ◌++◌, length, replicate, ltb, if◌then◌else◌}
use slimmer.Trace.Event.{place_holder_label}

-- `filled` are all the blocks that were handed to the compressing thread, the oldest first; `block` is
-- [buffer[cur_block], buffer[cur_block] + offset).
pub record CircularBuffer : Type 0 where
  pub size : ℕ
  pub filled : List (List ℕ)
  pub block : List ℕ

unfoldable pub init : ℕ → CircularBuffer
init size = record { size = size; filled = []; block = [] }

-- memset(buffer + offset, PlaceHolderLabel, size - offset) and the signal that hands the block over.
unfoldable pub hand_over : CircularBuffer → CircularBuffer
hand_over cb = record cb {
  filled = cb.filled ++ (cb.block ++ replicate (cb.size - length cb.block) place_holder_label) ∷ [];
  block = [];
}

-- StartAppend(length), the bytes written behind it, and EndAppend.
unfoldable pub append : CircularBuffer → List ℕ → CircularBuffer
append cb bytes =
    let room = if ltb cb.size (length cb.block + length bytes) then hand_over cb else cb in
    record room { block = room.block ++ bytes }

-- The record functions called one after the other.
unfoldable pub append_all : CircularBuffer → List (List ℕ) → CircularBuffer
append_all cb [] = cb
append_all cb (bytes ∷ rest) = append_all (append cb bytes) rest
