-- ===== src/Queue/Threads/Keeps.antt =====
-- Where the blocks are, and the order of the stanzas, over every run of the threads.
use mukite.Common.{
  ℕ, zero, suc, ◌+◌, ◌≤◌, ◌<◌, ◌≡◌, refl, sym, ap, subst, ◌∙◌, Option, none, some, List, [], ◌∷◌,
  ◌++◌, ltb, if◌then◌else◌, arith, append_assoc,
}
use mukite.Packet.{StanzaQueueStats}
use mukite.Queue.{
  StanzaQueue, queue_pop_free, queue_pop_data, queue_push_data, queue_push_free, link_free,
  init_free, queue_init,
}
use mukite.Queue.Chains.{tally, tally-append}
use mukite.Queue.Refine.{
  Holds, link_free-Holds, push_free-Holds, pop_free-Holds, pop_free-waits, pop_data-Holds,
  pop_data-waits, push_data-Holds,
}
use mukite.Queue.Threads.{
  Threads, Step, take_free, wait_free, queue_data, take_data, wait_data, give_back, Reach, here,
  next, started,
}

-- The queue holds these stanzas and these free blocks. Each of the blocks below `n` is in one place:
-- queued, free, or held by one thread; and what was queued is what was taken, then what is queued.
pub record Keeps (n : ℕ) (s : Threads) (stanzas free : List ℕ) : Type 0 where
  pub holds : Holds s.queue stanzas free
  pub placed :
      (a : ℕ)
      → tally a stanzas + tally a free + tally a s.filling + tally a s.parsing
        ≡ (if ltb a n then 1 else 0)
  pub order : s.queued ≡ s.taken ++ stanzas

one_at_most : (a n : ℕ) → (if ltb a n then 1 else 0) ≤ 1
one_at_most a n = ground arith

tally-split :
    (a b : ℕ) (xs ys : List ℕ) → tally a (xs ++ (b ∷ ys)) ≡ tally a (b ∷ []) + tally a (xs ++ ys)
tally-split a b xs ys = omega (arith, tally-append a xs (b ∷ ys), tally-append a xs ys)

one_self : (b : ℕ) → tally b (b ∷ []) ≡ 1
one_self b = ground arith

module _ (n : ℕ) (s : Threads) where
  take_free-Keeps :
      (stanzas free : List ℕ) (b : ℕ)
      → Keeps n s stanzas (b ∷ free)
      → Keeps n
          (record s { queue = (queue_pop_free s.queue).1; filling = b ∷ s.filling })
          stanzas
          free
  take_free-Keeps stanzas free b k = record {
    holds = (pop_free-Holds s.queue stanzas free b k.holds).1;
    placed = λ a. omega (arith, k.placed a);
    order = k.order;
  }

  pub take_data-Keeps :
      (stanzas free : List ℕ) (b : ℕ)
      → Keeps n s (b ∷ stanzas) free
      → Keeps n
          (record s {
            queue = (queue_pop_data s.queue).1;
            parsing = b ∷ s.parsing;
            taken = s.taken ++ (b ∷ []);
          })
          stanzas
          free
  take_data-Keeps stanzas free b k = record {
    holds = (pop_data-Holds s.queue stanzas free b k.holds).1;
    placed = λ a. omega (arith, k.placed a);
    order = k.order ∙ sym (append_assoc s.taken (b ∷ []) stanzas);
  }

  pub queue_data-Keeps :
      (stanzas free xs ys : List ℕ) (b : ℕ)
      → s.filling ≡ xs ++ (b ∷ ys)
      → Keeps n s stanzas free
      → Keeps n
          (record s {
            queue = queue_push_data s.queue b;
            filling = xs ++ ys;
            queued = s.queued ++ (b ∷ []);
          })
          (stanzas ++ (b ∷ []))
          free
  queue_data-Keeps stanzas free xs ys b e k = record {
    holds = push_data-Holds s.queue stanzas free b k.holds (
        omega
          (arith, k.placed b, one_at_most b n, one_self b, ap (tally b) e, tally-split b b xs ys));
    placed = λ a.
        omega (
          arith,
          k.placed a,
          ap (tally a) e,
          tally-split a b xs ys,
          tally-append a stanzas (b ∷ []),
        );
    order = ap (λ l. l ++ (b ∷ [])) k.order ∙ append_assoc s.taken stanzas (b ∷ []);
  }

  pub give_back-Keeps :
      (stanzas free xs ys : List ℕ) (b : ℕ)
      → s.parsing ≡ xs ++ (b ∷ ys)
      → Keeps n s stanzas free
      → Keeps n
          (record s { queue = queue_push_free s.queue b; parsing = xs ++ ys })
          stanzas
          (b ∷ free)
  give_back-Keeps stanzas free xs ys b e k = record {
    holds = push_free-Holds s.queue stanzas free b k.holds (
        omega
          (arith, k.placed b, one_at_most b n, one_self b, ap (tally b) e, tally-split b b xs ys));
    placed = λ a. omega (arith, k.placed a, ap (tally a) e, tally-split a b xs ys);
    order = k.order;
  }

-- Some stanzas are queued and some blocks are free.
abbrev pub Kept : ℕ → Threads → Type 0
Kept n s = (stanzas : List ℕ) × (free : List ℕ) × Keeps n s stanzas free

-- A pop that returned a block returned this one, and this queue.
same_block : (b c : ℕ) (o : Option ℕ) → o ≡ some b → o ≡ some c → c ≡ b
same_block b c o e f = cc

module _ (n : ℕ) (s : Threads) (b : ℕ) (q : StanzaQueue) where
  popped_free :
      queue_pop_free s.queue ≡ (some b, q)
      → (stanzas free : List ℕ) → Keeps n s stanzas free
      → Kept n (record s { queue = q; filling = b ∷ s.filling })
  popped_free e stanzas [] k =
      absurd (ground (arith, ap (λ r. r.0) e, (pop_free-waits s.queue stanzas k.holds).0))
  popped_free e stanzas (c ∷ free) k = (
    stanzas,
    free,
    subst (λ r. Keeps n (record s { queue = r; filling = b ∷ s.filling }) stanzas free)
        (ap (λ r. r.1) e)
        (subst
          (λ x.
            Keeps n (record s { queue = (queue_pop_free s.queue).1; filling = x ∷ s.filling })
              stanzas free)
          (same_block b c (queue_pop_free s.queue).0 (ap (λ r. r.0) e)
            (pop_free-Holds s.queue stanzas free c k.holds).0)
          (take_free-Keeps n s stanzas free c k)),
  )

  popped_data :
      queue_pop_data s.queue ≡ (some b, q)
      → (stanzas free : List ℕ) → Keeps n s stanzas free
      → Kept n (record s { queue = q; parsing = b ∷ s.parsing; taken = s.taken ++ (b ∷ []) })
  popped_data e [] free k =
      absurd (ground (arith, ap (λ r. r.0) e, (pop_data-waits s.queue free k.holds).0))
  popped_data e (c ∷ stanzas) free k = (
    stanzas,
    free,
    subst
        (λ r.
          Keeps n (record s { queue = r; parsing = b ∷ s.parsing; taken = s.taken ++ (b ∷ []) })
            stanzas free)
        (ap (λ r. r.1) e)
        (subst
          (λ x.
            Keeps n
              (record s {
                queue = (queue_pop_data s.queue).1;
                parsing = x ∷ s.parsing;
                taken = s.taken ++ (x ∷ []);
              })
              stanzas free)
          (same_block b c (queue_pop_data s.queue).0 (ap (λ r. r.0) e)
            (pop_data-Holds s.queue stanzas free c k.holds).0)
          (take_data-Keeps n s stanzas free c k)),
  )

module _ (n : ℕ) (s : Threads) (q : StanzaQueue) where
  waited_free :
      queue_pop_free s.queue ≡ (none, q)
      → (stanzas free : List ℕ) → Keeps n s stanzas free
      → Kept n (record s { queue = q })
  waited_free e stanzas (c ∷ free) k =
      absurd (ground (arith, ap (λ r. r.0) e, (pop_free-Holds s.queue stanzas free c k.holds).0))
  waited_free e stanzas [] k = (
    stanzas,
    [],
    subst (λ r. Keeps n (record s { queue = r }) stanzas []) (ap (λ r. r.1) e)
        (record {
          holds = (pop_free-waits s.queue stanzas k.holds).1;
          placed = k.placed;
          order = k.order;
        }),
  )

  waited_data :
      queue_pop_data s.queue ≡ (none, q)
      → (stanzas free : List ℕ) → Keeps n s stanzas free
      → Kept n (record s { queue = q })
  waited_data e (c ∷ stanzas) free k =
      absurd (ground (arith, ap (λ r. r.0) e, (pop_data-Holds s.queue stanzas free c k.holds).0))
  waited_data e [] free k = (
    [],
    free,
    subst (λ r. Keeps n (record s { queue = r }) [] free) (ap (λ r. r.1) e)
        (record {
          holds = (pop_data-waits s.queue free k.holds).1;
          placed = k.placed;
          order = k.order;
        }),
  )

Step-Kept : (n : ℕ) (s t : Threads) → Step s t → Kept n s → Kept n t
Step-Kept n s t (take_free b q e f) k = subst (Kept n) (sym f) (popped_free n s b q e k.0 k.1 k.2)
Step-Kept n s t (wait_free q e f) k = subst (Kept n) (sym f) (waited_free n s q e k.0 k.1 k.2)
Step-Kept n s t (queue_data xs ys b e f) k =
    subst (Kept n) (sym f) (k.0 ++ (b ∷ []), k.1, queue_data-Keeps n s k.0 k.1 xs ys b e k.2)
Step-Kept n s t (take_data b q e f) k = subst (Kept n) (sym f) (popped_data n s b q e k.0 k.1 k.2)
Step-Kept n s t (wait_data q e f) k = subst (Kept n) (sym f) (waited_data n s q e k.0 k.1 k.2)
Step-Kept n s t (give_back xs ys b e f) k =
    subst (Kept n) (sym f) (k.0, b ∷ k.1, give_back-Keeps n s k.0 k.1 xs ys b e k.2)

-- The free blocks once those below `n` are put on top.
abbrev stacked : ℕ → List ℕ → List ℕ
stacked zero free = free
stacked (suc n) free = stacked n (n ∷ free)

tally-stacked :
    (a n : ℕ) (free : List ℕ) → tally a (stacked n free) ≡ (if ltb a n then 1 else 0) + tally a free
tally-stacked a zero free = ground arith
tally-stacked a (suc n) free = ground (arith, tally-stacked a n (n ∷ free))

init_free-Holds :
    (n : ℕ) (q : StanzaQueue) (free : List ℕ)
    → ((a : ℕ) → a < n → tally a free ≡ 0)
    → Holds q [] free
    → Holds (init_free n q) [] (stacked n free)
unfolding init_free
init_free-Holds zero q free fresh h = h
init_free-Holds (suc n) q free fresh h =
    init_free-Holds n (link_free q n) (n ∷ free) (λ a lt. ground (arith, fresh a (omega arith)))
      (link_free-Holds q [] free n h (omega (arith, fresh n (omega arith))))

started-Kept : (stats : StanzaQueueStats) (n : ℕ) → Kept n (started stats n)
unfolding queue_init
started-Kept stats n = (
  [],
  stacked n [],
  record {
    holds =
        init_free-Holds n _ [] (λ a lt. refl)
          (record { chain = refl; end = refl; stack = refl; once = λ a. omega arith });
    placed = λ a. omega (arith, tally-stacked a n []);
    order = refl;
  },
)

-- However the calls of the reader and the workers are interleaved, each of the `n` blocks that the
-- queue started with stands in one place: in the list of stanzas, in the list of free blocks, or
-- with one thread. The pointers lead through those lists, and the stanzas that were queued are those
-- that were taken, in the same order, and then those that are in the list.
pub Reach-Kept :
    (stats : StanzaQueueStats) (n : ℕ) (s : Threads) → Reach (started stats n) s → Kept n s
Reach-Kept stats n s here = started-Kept stats n
Reach-Kept stats n s (next {t} {u} r step) = Step-Kept n t u step (Reach-Kept stats n t r)
