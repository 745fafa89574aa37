-- ===== src/Ring/Pipe.antt =====
-- The workers and the writer share the ring buffer: workers write stanzas, and xmcomp/src/writer.c
-- asks for a chunk, sends a part of it and releases that part.
pub mod Writes
pub mod Order
use mukite.Common.{
  ℕ, ◌-◌, ◌≤◌, ◌<◌, ◌≡◌, none, [], ◌++◌, Bytes, length, take, Outcome, Fault, ok, fault,
}
use mukite.Packet.{RingBufferStats}
use mukite.Ring.{
  RingBuffer, ringbuffer_init, ringbuffer_write, chunk_read, read_counted, ringbuffer_get_chunk,
  ringbuffer_release_chunk, release_failed, ringbuffer_offline,
}
use mukite.Ring.Read.{straight}

-- Where the writer is in its loop: at its head; in `ringbuffer_get_chunk`, which has compared a
-- `data_size`; with a chunk; with the bytes that `net_send` took, or its -1; out of the loop; or off the
-- rails, where it has released -1 bytes or sends bytes from beyond the block.
pub data Turn : Type 0 where
  idle : Turn
  looked : ℕ → Turn
  offered : ℕ → Turn
  passed : ℕ → Turn
  failed : Turn
  gone : Turn
  lost : Turn

-- `accepted` records the bytes that `ringbuffer_write` copied so far, and `sent` those that the
-- socket took.
pub record Pipe : Type 0 where
  pub ring : RingBuffer
  pub turn : Turn
  pub accepted : Bytes
  pub sent : Bytes

-- A call of `ringbuffer_write` or `ringbuffer_release_chunk` holds the mutex, and a write is a step
-- until it returns or waits; a call that waited goes on with the rest. `ringbuffer_get_chunk` holds no
-- mutex: the others may write between its two readings of `data_size`. `ringbuffer_offline` holds none
-- either, and sets one flag.
pub data Step (s t : Pipe) : Type 0 where
  write :
      (bytes rest : Bytes) (r : RingBuffer)
      → ringbuffer_write s.ring bytes ≡ ok (r, rest)
      → t ≡ record s { ring = r; accepted = s.accepted ++ take (length bytes - length rest) bytes }
      → Step s t
  wait :
      (r : RingBuffer)
      → s.turn ≡ idle
      → ringbuffer_get_chunk s.ring ≡ (none, r)
      → t ≡ record s { ring = r }
      → Step s t
  look :
      s.turn ≡ idle
      → 0 < s.ring.data_size
      → t ≡ record s { turn = looked s.ring.data_size }
      → Step s t
  offer :
      (seen : ℕ)
      → s.turn ≡ looked seen
      → chunk_read s.ring seen ≤ s.ring.buffer_size - s.ring.read_position
      → t ≡ record s { ring = read_counted s.ring; turn = offered (chunk_read s.ring seen) }
      → Step s t
  overrun :
      (seen : ℕ)
      → s.turn ≡ looked seen
      → s.ring.buffer_size - s.ring.read_position < chunk_read s.ring seen
      → t ≡ record s { ring = read_counted s.ring; turn = lost }
      → Step s t
  send :
      (c k : ℕ)
      → s.turn ≡ offered c
      → k ≤ c
      → t
        ≡ record s { turn = passed k; sent = s.sent ++ straight s.ring.mem s.ring.read_position k }
      → Step s t
  fail : (c : ℕ) → s.turn ≡ offered c → t ≡ record s { turn = failed } → Step s t
  release :
      (k : ℕ)
      → s.turn ≡ passed k
      → t ≡ record s { ring = ringbuffer_release_chunk s.ring k; turn = idle }
      → Step s t
  back :
      (r : RingBuffer)
      → s.turn ≡ failed
      → release_failed s.ring ≡ ok r
      → t ≡ record s { ring = r; turn = lost }
      → Step s t
  back_out :
      (f : Fault)
      → s.turn ≡ failed
      → release_failed s.ring ≡ fault f
      → t ≡ record s { turn = lost }
      → Step s t
  leave : s.turn ≡ idle → t ≡ record s { turn = gone } → Step s t
  stop : t ≡ record s { ring = ringbuffer_offline s.ring } → Step s t

pub data Reach (s : Pipe) : Pipe → Type 0 where
  here : Reach s s
  next : {t u : Pipe} → Reach s t → Step t u → Reach s u

abbrev pub opened : RingBufferStats → (ℕ → ℕ) → ℕ → Pipe
opened stats mem size = record {
  ring = ringbuffer_init stats mem size;
  turn = idle;
  accepted = [];
  sent = [];
}
