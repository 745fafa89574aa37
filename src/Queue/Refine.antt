-- ===== src/Queue/Refine.antt =====
-- The queue of stanzas as the lists of blocks that its pointers lead through.
use mukite.Common.{
  ℕ, ◌+◌, ◌≤◌, ◌≡◌, refl, sym, ap, subst, ◌∙◌, Option, none, some, List, [], ◌∷◌, ◌++◌, ◌==◌,
  if◌then◌else◌, Bool-cases, inl, inr, ==→eq, arith,
}
use mukite.Queue.{
  StanzaQueue, set_next, points_at, pop_free_at, queue_pop_free, pop_data_at, queue_pop_data,
  link_data, push_data_at, queue_push_data, link_free, queue_push_free,
}
use mukite.Queue.Chains.{
  tally, tally-append, IsChain, last, set_next-here, IsChain-set_next, IsChain-snoc, last-snoc,
  tally-last, tally-last,
}

-- The queue holds these blocks with stanzas, first to last, and these free blocks, top to bottom.
pub record Holds (q : StanzaQueue) (stanzas free : List ℕ) : Type 0 where
  pub chain : IsChain q.next q.data_start_queue stanzas
  pub end : q.data_end_queue ≡ last stanzas
  pub stack : IsChain q.next q.free_queue free
  pub once : (a : ℕ) → tally a stanzas + tally a free ≤ 1

-- One more of a block that is not there yet.
once_more : (b a : ℕ) (n : ℕ → ℕ) → n b ≡ 0 → n a ≤ 1 → (if b == a then 1 else 0) + n a ≤ 1
once_more b a n fresh h = elim (Bool-cases (b == a)) [
  | inl same ↦ rw same (omega (arith, fresh, ap n (==→eq b a same)))
  | inr other ↦ rw other (omega arith)
]

-- The last stanza is the one that is popped, if it is the only one.
end_after :
    (o : Option ℕ) (b : ℕ) (stanzas : List ℕ)
    → tally b stanzas ≡ 0
    → o ≡ last (b ∷ stanzas)
    → (if points_at o b then none else o) ≡ last stanzas
end_after none b [] fresh e = refl
end_after none b (x ∷ xs) fresh e = e
end_after (some y) b [] fresh e = ground arith
end_after (some y) b (x ∷ xs) fresh e = elim (Bool-cases (y == b)) [
  | inl same ↦
      absurd (
        omega
          (arith, fresh, tally-last y x xs (sym e), ap (λ z. tally z (x ∷ xs)) (==→eq y b same)))
  | inr other ↦ rw other e
]

last-some : (x : ℕ) (xs : List ℕ) → (e : ℕ) × (last (x ∷ xs) ≡ some e)
last-some x [] = (x, refl)
last-some x (y ∷ xs) = last-some y xs

module _ (q : StanzaQueue) where
  pub link_free-Holds :
      (stanzas free : List ℕ) (b : ℕ)
      → Holds q stanzas free
      → tally b stanzas + tally b free ≡ 0
      → Holds (link_free q b) stanzas (b ∷ free)
  unfolding link_free
  link_free-Holds stanzas free b h fresh = record {
    chain = IsChain-set_next q.next b q.free_queue q.data_start_queue stanzas (omega arith) h.chain;
    end = h.end;
    stack = (
      refl,
      rw (set_next-here q.next b q.free_queue)
          (IsChain-set_next q.next b q.free_queue q.free_queue free (omega arith) h.stack),
    );
    once = λ a. omega (arith, once_more b a (λ x. tally x stanzas + tally x free) fresh (h.once a));
  }

  pub push_free-Holds :
      (stanzas free : List ℕ) (b : ℕ)
      → Holds q stanzas free
      → tally b stanzas + tally b free ≡ 0
      → Holds (queue_push_free q b) stanzas (b ∷ free)
  unfolding queue_push_free
  push_free-Holds stanzas free b h fresh =
      let l = link_free-Holds stanzas free b h fresh in
      record { chain = l.chain; end = l.end; stack = l.stack; once = l.once }

  -- A free block is popped from the top.
  pub pop_free-Holds :
      (stanzas free : List ℕ) (b : ℕ)
      → Holds q stanzas (b ∷ free)
      → ((queue_pop_free q).0 ≡ some b) × Holds (queue_pop_free q).1 stanzas free
  unfolding queue_pop_free pop_free_at
  pop_free-Holds stanzas free b h = (
    ap (λ o. (pop_free_at q o).0) h.stack.0,
    subst (λ o. Holds (pop_free_at q o).1 stanzas free) (sym h.stack.0)
        (record {
          chain = h.chain;
          end = h.end;
          stack = h.stack.1;
          once = λ a. omega (arith, h.once a);
        }),
  )

  pub pop_free-waits :
      (stanzas : List ℕ)
      → Holds q stanzas []
      → ((queue_pop_free q).0 ≡ none) × Holds (queue_pop_free q).1 stanzas []
  unfolding queue_pop_free pop_free_at
  pop_free-waits stanzas h = (
    ap (λ o. (pop_free_at q o).0) h.stack,
    subst (λ o. Holds (pop_free_at q o).1 stanzas []) (sym h.stack)
        (record { chain = h.chain; end = h.end; stack = h.stack; once = h.once }),
  )

  -- The stanza that was queued first is popped.
  pub pop_data-Holds :
      (stanzas free : List ℕ) (b : ℕ)
      → Holds q (b ∷ stanzas) free
      → ((queue_pop_data q).0 ≡ some b) × Holds (queue_pop_data q).1 stanzas free
  unfolding queue_pop_data pop_data_at
  pop_data-Holds stanzas free b h = (
    ap (λ o. (pop_data_at q o).0) h.chain.0,
    subst (λ o. Holds (pop_data_at q o).1 stanzas free) (sym h.chain.0)
        (record {
          chain = h.chain.1;
          end = end_after q.data_end_queue b stanzas (ground (arith, h.once b)) h.end;
          stack = h.stack;
          once = λ a. omega (arith, h.once a);
        }),
  )

  pub pop_data-waits :
      (free : List ℕ)
      → Holds q [] free
      → ((queue_pop_data q).0 ≡ none) × Holds (queue_pop_data q).1 [] free
  unfolding queue_pop_data pop_data_at
  pop_data-waits free h = (
    ap (λ o. (pop_data_at q o).0) h.chain,
    subst (λ o. Holds (pop_data_at q o).1 [] free) (sym h.chain)
        (record { chain = h.chain; end = h.end; stack = h.stack; once = h.once }),
  )

  push_first :
      (free : List ℕ) (b : ℕ)
      → Holds q [] free
      → tally b free ≡ 0
      → Holds (push_data_at q b none) (b ∷ []) free
  unfolding push_data_at link_data
  push_first free b h fresh = record {
    chain = (refl, set_next-here q.next b none);
    end = refl;
    stack = IsChain-set_next q.next b none q.free_queue free fresh h.stack;
    once = λ a. omega (arith, once_more b a (λ x. tally x free) fresh (omega (arith, h.once a)));
  }

  push_behind :
      (x : ℕ) (xs free : List ℕ) (b e : ℕ)
      → Holds q (x ∷ xs) free
      → tally b (x ∷ xs) + tally b free ≡ 0
      → last (x ∷ xs) ≡ some e
      → Holds (push_data_at q b (some e)) ((x ∷ xs) ++ (b ∷ [])) free
  unfolding push_data_at link_data
  push_behind x xs free b e h fresh ends = record {
    chain =
        IsChain-snoc q.next b e q.data_start_queue x xs (omega (arith, fresh))
          (omega (arith, h.once e)) ends h.chain;
    end = sym (last-snoc (x ∷ xs) b);
    stack =
        IsChain-set_next (set_next q.next b none) e (some b) q.free_queue free
          (omega (arith, h.once e, tally-last e x xs ends))
          (IsChain-set_next q.next b none q.free_queue free (omega (arith, fresh)) h.stack);
    once = λ a. omega (
      arith,
      tally-append a (x ∷ xs) (b ∷ []),
      once_more b a (λ z. tally z (x ∷ xs) + tally z free) fresh (h.once a),
    );
  }

  -- A stanza is queued behind the others.
  pub push_data-Holds :
      (stanzas free : List ℕ) (b : ℕ)
      → Holds q stanzas free
      → tally b stanzas + tally b free ≡ 0
      → Holds (queue_push_data q b) (stanzas ++ (b ∷ [])) free
  unfolding queue_push_data
  push_data-Holds [] free b h fresh =
      subst (λ o. Holds (push_data_at q b o) (b ∷ []) free) (sym h.end)
        (push_first free b h (omega (arith, fresh)))
  push_data-Holds (x ∷ xs) free b h fresh =
      let e = last-some x xs in
      subst (λ o. Holds (push_data_at q b o) ((x ∷ xs) ++ (b ∷ [])) free) (sym (h.end ∙ e.1))
        (push_behind x xs free b e.0 h fresh e.1)
