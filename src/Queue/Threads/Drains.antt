-- ===== src/Queue/Threads/Drains.antt =====
-- How the threads finish what they hold.
use mukite.Common.{
  ℕ, ◌≡◌, refl, ap, ◌∙◌, List, [], ◌∷◌, ◌++◌, append-nil, ltb, if◌then◌else◌, arith,
}
use mukite.Queue.Chains.{tally}
use mukite.Packet.{StanzaQueueStats}
use mukite.Queue.{queue_pop_data, queue_push_data, queue_push_free}
use mukite.Queue.Refine.{Holds, pop_data-Holds}
use mukite.Queue.Threads.{
  Threads, Step, queue_data, take_data, give_back, Reach, here, next, started,
}
use mukite.Queue.Threads.Keeps.{
  Keeps, Kept, queue_data-Keeps, take_data-Keeps, give_back-Keeps, Reach-Kept,
}

-- A run that starts with a call.
first : {s t u : Threads} → Step s t → Reach t u → Reach s u
first st here = next here st
first st (next r st') = next (first st r) st'

pub then_Reach : {s t u : Threads} → Reach s t → Reach t u → Reach s u
then_Reach r here = r
then_Reach r (next r' st) = next (then_Reach r r') st

-- The reader queues every block that it holds.
queue_all :
    (n : ℕ) (s : Threads) (stanzas free blocks : List ℕ)
    → s.filling ≡ blocks
    → Keeps n s stanzas free
    → (t : Threads) × Reach s t × (t.filling ≡ []) × Kept n t
queue_all n s stanzas free [] e k = (s, here, e, (stanzas, free, k))
queue_all n s stanzas free (b ∷ ys) e k =
    let t : Threads = record s {
      queue = queue_push_data s.queue b;
      filling = ys;
      queued = s.queued ++ (b ∷ []);
    } in
    let rest =
      queue_all n t (stanzas ++ (b ∷ [])) free ys refl
        (queue_data-Keeps n s stanzas free [] ys b e k) in
    (rest.0, first (queue_data [] ys b e refl) rest.1, rest.2, rest.3)

-- The workers take every stanza.
take_all :
    (n : ℕ) (s : Threads) (stanzas free : List ℕ)
    → s.filling ≡ []
    → Keeps n s stanzas free
    → (t : Threads) × Reach s t × (t.filling ≡ []) × Keeps n t [] free
take_all n s [] free f k = (s, here, f, k)
take_all n s (b ∷ stanzas) free f k =
    let q = (queue_pop_data s.queue).1 in
    let t : Threads = record s {
      queue = q;
      parsing = b ∷ s.parsing;
      taken = s.taken ++ (b ∷ []);
    } in
    let rest = take_all n t stanzas free f (take_data-Keeps n s stanzas free b k) in
    (
      rest.0,
      first
          (take_data b q (ap (λ o. (o, q)) (pop_data-Holds s.queue stanzas free b k.holds).0) refl)
          rest.1,
      rest.2,
      rest.3,
    )

-- Every stanza is taken, no thread holds a block, and the blocks below `n` are free.
pub record IsIdle (n : ℕ) (t : Threads) (free : List ℕ) : Type 0 where
  pub holds : Holds t.queue [] free
  pub free_once : (a : ℕ) → tally a free ≡ (if ltb a n then 1 else 0)
  pub filled : t.filling ≡ []
  pub parsed : t.parsing ≡ []
  pub order : t.queued ≡ t.taken

-- The workers give every block back.
give_all :
    (n : ℕ) (s : Threads) (free blocks : List ℕ)
    → s.filling ≡ []
    → s.parsing ≡ blocks
    → Keeps n s [] free
    → (t : Threads) × (all : List ℕ) × Reach s t × IsIdle n t all
give_all n s free [] f e k = (
  s,
  free,
  here,
  record {
    holds = k.holds;
    free_once = λ a. omega (arith, k.placed a, ap (tally a) f, ap (tally a) e);
    filled = f;
    parsed = e;
    order = k.order ∙ append-nil s.taken;
  },
)
give_all n s free (b ∷ ys) f e k =
    let t : Threads = record s { queue = queue_push_free s.queue b; parsing = ys } in
    let rest = give_all n t (b ∷ free) ys f refl (give_back-Keeps n s [] free [] ys b e k) in
    (rest.0, rest.1, first (give_back [] ys b e refl) rest.2, rest.3)

-- The threads are never stuck: from every state that they reach, there are calls after which every
-- stanza that was queued has been taken, in order, no thread holds a block, and each of the `n`
-- blocks is free again.
pub Reach-drains :
    (stats : StanzaQueueStats) (n : ℕ) (s : Threads)
    → Reach (started stats n) s
    → (t : Threads) × (free : List ℕ) × Reach s t × IsIdle n t free
Reach-drains stats n s r =
    let k = Reach-Kept stats n s r in
    let a = queue_all n s k.0 k.1 s.filling refl k.2 in
    let b = take_all n a.0 a.3.0 a.3.1 a.2 a.3.2 in
    let c = give_all n b.0 a.3.1 b.0.parsing b.2 refl b.3 in
    (c.0, c.1, then_Reach a.1 (then_Reach b.1 c.2), c.3)
