-- ===== src/Queue/Threads.antt =====
-- The reader and the workers share the queue. Each operation runs under a mutex and is one step of a
-- run of the threads.
pub mod Keeps
pub mod Drains
use mukite.Common.{ℕ, ◌≡◌, Option, none, some, List, [], ◌∷◌, ◌++◌}
use mukite.Packet.{StanzaQueueStats}
use mukite.Queue.{
  StanzaQueue, queue_pop_free, queue_pop_data, queue_push_data, queue_push_free, queue_init,
}

-- The blocks that the reader fills and the workers parse. `queued` and `taken` record the order in
-- which stanzas were pushed and popped so far.
pub record Threads : Type 0 where
  pub queue : StanzaQueue
  pub filling : List ℕ
  pub parsing : List ℕ
  pub queued : List ℕ
  pub taken : List ℕ

-- A call that some thread makes: it pops a block or is left to wait, or pushes one that it holds.
pub data Step (s : Threads) (t : Threads) : Type 0 where
  take_free :
      (b : ℕ) (q : StanzaQueue)
      → queue_pop_free s.queue ≡ (some b, q)
      → t ≡ record s { queue = q; filling = b ∷ s.filling }
      → Step s t
  wait_free :
      (q : StanzaQueue) → queue_pop_free s.queue ≡ (none, q) → t ≡ record s { queue = q } → Step s t
  queue_data :
      (xs ys : List ℕ) (b : ℕ)
      → s.filling ≡ xs ++ (b ∷ ys)
      → t ≡ record s {
        queue = queue_push_data s.queue b;
        filling = xs ++ ys;
        queued = s.queued ++ (b ∷ []);
      }
      → Step s t
  take_data :
      (b : ℕ) (q : StanzaQueue)
      → queue_pop_data s.queue ≡ (some b, q)
      → t ≡ record s { queue = q; parsing = b ∷ s.parsing; taken = s.taken ++ (b ∷ []) }
      → Step s t
  wait_data :
      (q : StanzaQueue) → queue_pop_data s.queue ≡ (none, q) → t ≡ record s { queue = q } → Step s t
  give_back :
      (xs ys : List ℕ) (b : ℕ)
      → s.parsing ≡ xs ++ (b ∷ ys)
      → t ≡ record s { queue = queue_push_free s.queue b; parsing = xs ++ ys }
      → Step s t

pub data Reach (s : Threads) : Threads → Type 0 where
  here : Reach s s
  next : {t u : Threads} → Reach s t → Step t u → Reach s u

-- All `n` blocks are free, and no thread has called yet.
abbrev pub started : StanzaQueueStats → ℕ → Threads
started stats n = record {
  queue = queue_init stats n;
  filling = [];
  parsing = [];
  queued = [];
  taken = [];
}
