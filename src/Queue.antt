-- ===== src/Queue.antt =====
-- xmcomp/src/queue.h and queue.c: the queue of stanzas between the reader and the workers, and the
-- stack of free blocks.
pub mod Chains
pub mod Refine
pub mod Threads
use mukite.Common.{ℕ, zero, suc, ◌+◌, Bool, Option, none, some, ◌==◌, if◌then◌else◌}
use mukite.Packet.{StanzaQueueStats}

-- A block is known by its address; `next` is the field of each block. What stands in a block belongs
-- to the thread that holds it.
pub record StanzaQueue : Type 0 where
  pub data_start_queue : Option ℕ
  pub data_end_queue : Option ℕ
  pub free_queue : Option ℕ
  pub next : ℕ → Option ℕ
  pub stats : StanzaQueueStats

-- `block->next = v`
unfoldable pub set_next : (ℕ → Option ℕ) → ℕ → Option ℕ → ℕ → Option ℕ
set_next next block v a = if a == block then v else next a

-- Whether a pointer points at a block.
abbrev pub points_at : Option ℕ → ℕ → Bool
points_at none block = Bool.false
points_at (some a) block = a == block

-- The block that is popped, or none where the thread is left to wait.
unfoldable pub pop_free_at : StanzaQueue → Option ℕ → Option ℕ × StanzaQueue
pop_free_at q none =
    (none, record q { stats = record q.stats { overflows = q.stats.overflows + 1 } })
pop_free_at q (some block) = (
  some block,
  record q {
    free_queue = q.next block;
    stats = record q.stats { free_pops = q.stats.free_pops + 1 };
  },
)

-- `queue_pop_free`
unfoldable pub queue_pop_free : StanzaQueue → Option ℕ × StanzaQueue
queue_pop_free q = pop_free_at q q.free_queue

unfoldable pub pop_data_at : StanzaQueue → Option ℕ → Option ℕ × StanzaQueue
pop_data_at q none =
    (none, record q { stats = record q.stats { underflows = q.stats.underflows + 1 } })
pop_data_at q (some block) = (
  some block,
  record q {
    data_start_queue = q.next block;
    data_end_queue = if points_at q.data_end_queue block then none else q.data_end_queue;
    stats = record q.stats { data_pops = q.stats.data_pops + 1 };
  },
)

-- `queue_pop_data`
unfoldable pub queue_pop_data : StanzaQueue → Option ℕ × StanzaQueue
queue_pop_data q = pop_data_at q q.data_start_queue

-- The stanza goes behind the last one, or becomes the first.
unfoldable pub link_data : StanzaQueue → ℕ → Option ℕ → StanzaQueue
link_data q stanza none = record q {
  next = set_next q.next stanza none;
  data_start_queue = some stanza;
}
link_data q stanza (some last) = record q {
  next = set_next (set_next q.next stanza none) last (some stanza);
}

-- A push behind the block that `data_end_queue` points at.
unfoldable pub push_data_at : StanzaQueue → ℕ → Option ℕ → StanzaQueue
push_data_at q stanza end = record (link_data q stanza end) {
  data_end_queue = some stanza;
  stats = record q.stats { data_pushes = q.stats.data_pushes + 1 };
}

-- `queue_push_data`
unfoldable pub queue_push_data : StanzaQueue → ℕ → StanzaQueue
queue_push_data q stanza = push_data_at q stanza q.data_end_queue

-- A block goes on top of the free ones.
unfoldable pub link_free : StanzaQueue → ℕ → StanzaQueue
link_free q block = record q { next = set_next q.next block q.free_queue; free_queue = some block }

-- `queue_push_free`
unfoldable pub queue_push_free : StanzaQueue → ℕ → StanzaQueue
queue_push_free q stanza = record (link_free q stanza) {
  stats = record q.stats { free_pushes = q.stats.free_pushes + 1 };
}

-- The loop of `queue_init`; the block that is allocated with `n` rounds left after it has the
-- address `n`.
unfoldable pub init_free : ℕ → StanzaQueue → StanzaQueue
init_free zero q = q
init_free (suc n) q = init_free n (link_free q n)

-- `queue_init`. The counters are those that the caller zeroed.
unfoldable pub queue_init : StanzaQueueStats → ℕ → StanzaQueue
queue_init stats size = init_free size (record {
  data_start_queue = none;
  data_end_queue = none;
  free_queue = none;
  next = λ a. none;
  stats = stats;
})
