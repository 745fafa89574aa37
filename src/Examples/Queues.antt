-- ===== src/Examples/Queues.antt =====
-- A stanza on its way through the queue, and bytes on their way through the ring buffer.
use mukite.Common.{◌≢◌, true, ℕ, ◌≡◌, refl, [], ◌∷◌, List, lit, ok, arith}
use mukite.Packet.{StanzaQueueStats, RingBufferStats}
use mukite.Queue.{pop_free_at, queue_pop_free, queue_push_data, link_free, init_free, queue_init}
use mukite.Queue.Threads
use mukite.Queue.Threads.{Threads, Step, Reach, started}
use mukite.Queue.Threads.Keeps.{Kept, Reach-Kept}
use mukite.Queue.Threads.Drains.{IsIdle, Reach-drains}
use mukite.Ring.{
  RingBuffer, ringbuffer_init, ringbuffer_clear, copy_to, cycle, continuous, write_some,
  write_rounds, ringbuffer_write,
}
use mukite.Ring.Contents.{contents, bytes_from, IsRing}
use mukite.Ring.Write.{Written, ringbuffer_write-Written}
use mukite.Ring.Read.{straight}
use mukite.Ring.Pipe
use mukite.Ring.Pipe.{Pipe, passed, lost, opened}
use mukite.Ring.Pipe.Writes.{IsPipe}
use mukite.Ring.Pipe.Order.{Reach-IsPipe}

abbrev unused : StanzaQueueStats
unused = record {
  underflows = 0;
  overflows = 0;
  realloc_enlarges = 0;
  realloc_shortens = 0;
  mallocs = 0;
  data_pushes = 0;
  data_pops = 0;
  free_pushes = 0;
  free_pops = 0;
}

-- The reader took a block, and queued its stanza.
abbrev one_taken : Threads
one_taken = record (started unused 2) {
  queue = (queue_pop_free (queue_init unused 2)).1;
  filling = 0 ∷ [];
}

abbrev one_queued : Threads
one_queued = record one_taken {
  queue = queue_push_data one_taken.queue 0;
  filling = [];
  queued = 0 ∷ [];
}

one_queued-Reach : Threads.Reach (started unused 2) one_queued
unfolding queue_pop_free pop_free_at queue_init init_free link_free
one_queued-Reach =
    Threads.next (Threads.next Threads.here (Threads.take_free 0 one_taken.queue refl refl))
      (Threads.queue_data [] [] 0 refl refl)

Reach-Kept_example : Kept 2 one_queued
Reach-Kept_example = Reach-Kept unused 2 one_queued one_queued-Reach

Reach-drains_example :
    (t : Threads) × (free : List ℕ) × Threads.Reach one_queued t × IsIdle 2 t free
Reach-drains_example = Reach-drains unused 2 one_queued one_queued-Reach

abbrev silent : RingBufferStats
silent = record { underflows = 0; overflows = 0; reads = 0; writes = 0 }

abbrev blank : ℕ → ℕ
blank a = 0

-- Six bytes of room, the next byte goes into the fifth.
abbrev used : RingBuffer
used = record {
  mem = blank;
  buffer_size = 6;
  read_position = 4;
  write_position = 4;
  data_size = 0;
  online = true;
  stats = silent;
}

used-IsRing : IsRing used
used-IsRing = record {
  positive = omega arith;
  reads = omega arith;
  fits = omega arith;
  behind = refl;
}

-- Two bytes at the end of the block, three at its start.
abbrev filled : RingBuffer
filled = record used {
  mem = copy_to (copy_to blank 4 (lit "he")) 0 (lit "llo");
  write_position = 3;
  data_size = 5;
  stats = record silent { writes = 1 };
}

hello_written : ringbuffer_write used (lit "hello") ≡ ok (filled, [])
unfolding ringbuffer_write write_rounds continuous write_some copy_to cycle
hello_written = refl

hello_contents : contents filled ≡ lit "hello"
unfolding contents bytes_from copy_to cycle
hello_contents = refl

ringbuffer_write-Written_example : Written used (lit "hello") (ringbuffer_write used (lit "hello"))
ringbuffer_write-Written_example = ringbuffer_write-Written used (lit "hello") used-IsRing

-- Four of five bytes fit, and the writer sends three of them, while the worker waits with the fifth.
abbrev four : RingBuffer
four = record (ringbuffer_init silent blank 4) {
  mem = copy_to blank 0 (lit "hell");
  write_position = 0;
  data_size = 4;
  stats = record silent { overflows = 1 };
}

abbrev some_sent : Pipe
some_sent = record {
  ring = record four { stats = record four.stats { reads = 1 } };
  turn = passed 3;
  accepted = lit "hell";
  sent = lit "hel";
}

some_sent-Reach : Pipe.Reach (opened silent blank 4) some_sent
unfolding ringbuffer_init ringbuffer_clear ringbuffer_write write_rounds continuous write_some
    copy_to cycle straight
some_sent-Reach =
    Pipe.next
      (Pipe.next
        (Pipe.next (Pipe.next Pipe.here (Pipe.write (lit "hello") (lit "o") four refl refl))
          (Pipe.look refl (omega arith) refl))
        (Pipe.offer 4 refl (omega arith) refl))
      (Pipe.send 4 3 refl (omega arith) refl)

still_writes : some_sent.turn ≢ lost
still_writes e = cc

Reach-IsPipe_example : IsPipe some_sent
Reach-IsPipe_example =
    Reach-IsPipe silent blank 4 (omega arith) some_sent some_sent-Reach still_writes
