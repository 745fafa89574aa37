-- ===== src/Ring.antt =====
-- xmcomp/src/ringbuffer.h and ringbuffer.c: the bytes on their way to the network.
pub mod Contents
pub mod Write
pub mod Read
pub mod Pipe
use mukite.Common.{
  ℕ, zero, suc, ◌+◌, ◌-◌, min, Bool, true, false, ◌&&◌, Option, none, some, List, [], ◌∷◌, Bytes,
  ◌==◌, ltb, leb, if◌then◌else◌, length, take, drop, Outcome, ok, fault, out_of_fuel, wild_pointer,
  ◌>>=◌,
}
use mukite.Packet.{RingBufferStats}

-- Positions count from `start`, and `end` is `buffer_size`. `mem` is the byte at each position.
pub record RingBuffer : Type 0 where
  pub mem : ℕ → ℕ
  pub buffer_size : ℕ
  pub read_position : ℕ
  pub write_position : ℕ
  pub data_size : ℕ
  pub online : Bool
  pub stats : RingBufferStats

-- `ringbuffer_clear`
unfoldable pub ringbuffer_clear : RingBuffer → RingBuffer
ringbuffer_clear r = record r {
  read_position = 0;
  write_position = 0;
  data_size = 0;
  online = true;
}

-- `ringbuffer_init` of a block of memory. The counters are those that the caller zeroed.
unfoldable pub ringbuffer_init : RingBufferStats → (ℕ → ℕ) → ℕ → RingBuffer
ringbuffer_init stats mem size = ringbuffer_clear (record {
  mem = mem;
  buffer_size = size;
  read_position = 0;
  write_position = 0;
  data_size = 0;
  online = true;
  stats = stats;
})

abbrev pub set_byte : (ℕ → ℕ) → ℕ → ℕ → ℕ → ℕ
set_byte mem p b a = if a == p then b else mem a

-- `memcpy` to a position.
unfoldable pub copy_to : (ℕ → ℕ) → ℕ → Bytes → ℕ → ℕ
copy_to mem p [] = mem
copy_to mem p (b ∷ bytes) = copy_to (set_byte mem p b) (p + 1) bytes

-- A position at the end is the start.
unfoldable pub cycle : ℕ → ℕ → ℕ
cycle size p = if p == size then 0 else p

-- `continuous_block_size`
unfoldable pub continuous : RingBuffer → ℕ
continuous r =
    if leb r.write_position r.read_position && ltb 0 r.data_size
    then r.read_position - r.write_position
    else r.buffer_size - r.write_position

-- The part of the loop that copies bytes, as many as are given.
unfoldable pub write_some : RingBuffer → Bytes → RingBuffer
write_some r bytes = record r {
  mem = copy_to r.mem r.write_position bytes;
  write_position = cycle r.buffer_size (r.write_position + length bytes);
  data_size = r.data_size + length bytes;
}

-- `ringbuffer_write` until it returns, or waits: the buffer, and the bytes that are not written yet.
-- A round writes at least one byte, so the number of bytes bounds the rounds.
unfoldable pub write_rounds : ℕ → RingBuffer → Bytes → Outcome (RingBuffer × Bytes)
write_rounds fuel r [] =
    ok (record r { stats = record r.stats { writes = r.stats.writes + 1 } }, [])
write_rounds zero r (b ∷ bytes) = fault out_of_fuel
write_rounds (suc fuel) r (b ∷ bytes) =
    let size = min (continuous r) (length (b ∷ bytes)) in
    let rest = write_rounds fuel (write_some r (take size (b ∷ bytes))) (drop size (b ∷ bytes)) in
    if continuous r == 0
    then ok (record r { stats = record r.stats { overflows = r.stats.overflows + 1 } }, b ∷ bytes)
    else rest

unfoldable pub ringbuffer_write : RingBuffer → Bytes → Outcome (RingBuffer × Bytes)
ringbuffer_write r bytes = write_rounds (length bytes) r bytes

-- The end of `ringbuffer_get_chunk`: `data_size` was `seen` when it was compared, and is read again to
-- be returned.
abbrev pub chunk_read : RingBuffer → ℕ → ℕ
chunk_read r seen =
    if ltb seen (r.buffer_size - r.read_position)
    then r.data_size
    else r.buffer_size - r.read_position

-- `++stats->reads`
abbrev pub read_counted : RingBuffer → RingBuffer
read_counted r = record r { stats = record r.stats { reads = r.stats.reads + 1 } }

-- `ringbuffer_get_chunk` with no other thread at work: the size of the chunk, 0 where no more data will
-- come, or none where the thread is left to wait.
unfoldable pub ringbuffer_get_chunk : RingBuffer → Option ℕ × RingBuffer
ringbuffer_get_chunk r =
    if r.data_size == 0
    then (if r.online
        then (none, record r { stats = record r.stats { underflows = r.stats.underflows + 1 } })
        else (some 0, r))
    else (some (chunk_read r r.data_size), read_counted r)

-- `ringbuffer_release_chunk`
unfoldable pub ringbuffer_release_chunk : RingBuffer → ℕ → RingBuffer
ringbuffer_release_chunk r size = record r {
  read_position = cycle r.buffer_size (r.read_position + size);
  data_size = r.data_size - size;
}

-- `ringbuffer_release_chunk` of the size -1 of a `net_send` that failed. A position before the start is
-- outside of the block.
unfoldable pub release_failed : RingBuffer → Outcome RingBuffer
release_failed r = back r.read_position
  where
    back : ℕ → Outcome RingBuffer
    back zero = fault wild_pointer
    back (suc p) =
        ok (record r { read_position = cycle r.buffer_size p; data_size = r.data_size + 1 })

-- `ringbuffer_offline`
unfoldable pub ringbuffer_offline : RingBuffer → RingBuffer
ringbuffer_offline r = record r { online = false }
