-- ===== src/Worker.antt =====
-- `worker_send` of worker.c: a packet is printed into the buffer of the thread, and what was printed
-- is written to the ring buffer.
pub mod Send
pub mod Bounce
use mukite.Common.{Option, none, some, [], Bytes, Bool, true, false, ℕ, Outcome, ok, ◌>>=◌}
use mukite.Buffer.{BufferPtr}
use mukite.Packet.{BuilderPacket}
use mukite.Builder.{BuilderBuffer}
use mukite.Builder.Times.{Clock}
use mukite.Builder.Stanza.{builder_build}

-- The storage of a worker thread: the size of its output buffer and the name of the component.
pub record WorkerThreadStorage : Type 0 where
  pub buffer_size : ℕ
  pub hostname : BufferPtr

-- What is written to the ring buffer: what was printed, or nothing, if the stanza was dropped.
abbrev pub printed_text : BuilderBuffer × Bool → Option Bytes
printed_text (b, true) = some b.text
printed_text (b, false) = none

-- `worker_send`
unfoldable pub worker_send : Clock → WorkerThreadStorage → BuilderPacket → Outcome (Option Bytes)
worker_send c storage packet = do
  built ←
      builder_build c (record packet { from_host = storage.hostname })
        (record { text = []; size = storage.buffer_size })
  ok (printed_text built)
