-- ===== src/Trace/Ring.antt =====
-- The ring of buffers of the circular buffer: block n lies in buffer n % compress_block_cnt, and no
-- buffer is used for a new block before its last one is out of it.
use slimmer.Base.{ℕ, suc, ◌+◌, ◌<◌, ◌≤◌, length}
use slimmer.Trace.Event.{Event}
use slimmer.Trace.Workers.{
  Running, Phase, recording, ended, flagged, signalled, closed, compress_block_cnt,
}

-- The blocks begun, from those handed over: until the last one is signalled there is one more.
abbrev pub begun : Phase → ℕ → ℕ
begun recording handed = suc handed
begun ended handed = suc handed
begun flagged handed = suc handed
begun signalled handed = handed
begun closed handed = handed

record FitsRing (r : Running) : Type 0 where
  buffers : begun r.phase (length r.buffer.filled) ≤ r.compressed + compress_block_cnt
  slots : r.compressed ≤ r.dumped + compress_block_cnt

-- What an append leaves behind, before the phase is set.
abbrev HasAppended : Running → Type 0
HasAppended r = (r.compressed ≤ r.dumped + 150) × (length r.buffer.filled < r.compressed + 150)
