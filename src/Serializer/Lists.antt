-- ===== src/Serializer/Lists.antt =====
-- What is read back of a counted list.
use mukite.Common.{
  ℕ, zero, suc, ◌+◌, ◌*◌, ◌≤◌, ◌≡◌, refl, sym, subst, ap, ap₂, ◌∙◌, false, some, List, [], ◌∷◌,
  ◌++◌, Bytes, ltb, length, take, take-nil, length-take, append_assoc, arith,
}
use mukite.Utss.{Dls, dls_init, dls_append}
use mukite.Serializer.{
  Reader, read_word, mark, container_bytes, dls_serialize, entry_then, read_entries,
  dls_deserialize,
}
use mukite.Serializer.Reads.{Reads, then-Reads}

-- Every entry of the list has the property.
abbrev pub All : {A : Type 0} → (A → Type 0) → List A → Type 0
All P [] = Unit {0}
All P (x ∷ xs) = P x × All P xs

-- What is written of a list: the entries up to its limit.
abbrev pub written : {A : Type 0} → Dls A → List A
written l = take l.max_size l.entries

module _ {A : Type 0} (f : ℕ → A → A) where
  -- The entries as they are read back, each into the block of its round, counted down from `n`.
  abbrev pub numbered : ℕ → List A → List A
  numbered n [] = []
  numbered zero (x ∷ xs) = f zero x ∷ numbered zero xs
  numbered (suc n) (x ∷ xs) = f (suc n) x ∷ numbered n xs

  -- The list read back into one with this limit. The counter is twice the number of entries.
  abbrev pub refilled : ℕ → List A → Dls A
  refilled limit xs = record { entries = numbered limit xs; size = 2 * length xs; max_size = limit }

  numbered-one : (n : ℕ) (x : A) → numbered n (x ∷ []) ≡ f n x ∷ []
  numbered-one zero x = refl
  numbered-one (suc n) x = refl

  length-numbered : (n : ℕ) (xs : List A) → length (numbered n xs) ≡ length xs
  length-numbered n [] = refl
  length-numbered zero (x ∷ xs) = ap suc (length-numbered zero xs)
  length-numbered (suc n) (x ∷ xs) = ap suc (length-numbered n xs)

-- The entries of a list, each read back as `f` says, into the block of its round.
module _ {A : Type 0} (P : A → Type 0) (entry : A → Bytes) (read : ℕ → Reader A) (f : ℕ → A → A)
    (each : (n : ℕ) (x : A) → P x → Reads (read n) (entry x) (f n x)) where
  -- The list after the rounds that are left.
  abbrev filled : Dls A → List A → Dls A
  filled l xs = record l { entries = l.entries ++ xs; size = l.size + 2 * length xs }

  -- The list after one round.
  abbrev grown : Dls A → A → Dls A
  grown l x = dls_append (record l { size = l.size + 1 }) x

  filled-grown : (l : Dls A) (x : A) (xs : List A) → filled (grown l x) xs ≡ filled l (x ∷ xs)
  filled-grown l x xs =
      ap₂ (λ es n. record l { entries = es; size = n }) (append_assoc l.entries (x ∷ []) xs)
        (omega arith)

  container_bytes-take :
      (n : ℕ) (xs : List A) → container_bytes entry n xs ≡ container_bytes entry n (take n xs)
  unfolding container_bytes
  container_bytes-take n [] = ap (λ xs. container_bytes entry n xs) (sym (take-nil n))
  container_bytes-take zero (x ∷ xs) = refl
  container_bytes-take (suc n) (x ∷ xs) =
      ap (λ b. mark 1 ++ (entry x ++ b)) (container_bytes-take n xs)

  -- The rounds that `left` still allows read the entries.
  abbrev Rounds : ℕ → List A → Type 0
  Rounds left xs =
      (n : ℕ) (l : Dls A) (x : A)
      → length xs ≤ left
      → length xs ≤ n
      → l.size + 2 * length xs + 2 ≤ l.max_size * 2
      → All P (x ∷ xs)
      → Reads (read_entries (suc left) read l) (entry x ++ container_bytes entry n xs)
          (filled l (numbered f left (x ∷ xs)))

  last-entry-Reads :
      (left n : ℕ) (l : Dls A) (x : A)
      → Reads (entry_then (read_entries left read) l x) (container_bytes entry n []) (grown l x)
  unfolding container_bytes read_word
  last-entry-Reads left n l x rest = refl

  entry_then-Reads :
      (left n : ℕ) (l : Dls A) (x y : A) (xs : List A)
      → Rounds left xs
      → length (y ∷ xs) ≤ suc left
      → length (y ∷ xs) ≤ suc n
      → l.size + 2 * length (y ∷ xs) + 2 ≤ l.max_size * 2
      → All P (y ∷ xs)
      → Reads
          (entry_then (read_entries (suc left) read) l x)
          (container_bytes entry (suc n) (y ∷ xs))
          (filled l (x ∷ numbered f left (y ∷ xs)))
  unfolding container_bytes read_word
  entry_then-Reads left n l x y xs again hl hn hs a rest =
      again n (grown l x) y (omega (arith, hl)) (omega (arith, hn)) (omega (arith, hs)) a rest
      ∙ ap (λ w. some (w, rest)) (filled-grown l x (numbered f left (y ∷ xs)))

  entries-Reads : (left : ℕ) (xs : List A) → Rounds left xs
  unfolding read_entries
  entries-Reads left [] n l x hl hn hs a rest =
      let more : ltb (l.max_size * 2) (l.size + 1) ≡ false = ground arith in
      rw more (
        then-Reads (read left) (entry_then (read_entries left read) l) (entry x)
          (container_bytes entry n []) (f left x) (grown l (f left x)) (each left x a.0)
          (last-entry-Reads left n l (f left x)) rest
        ∙ ap₂ (λ es s. some (record l { entries = l.entries ++ es; size = s }, rest))
            (sym (numbered-one f left x)) (omega (arith, ap length (numbered-one f left x))))
  entries-Reads (suc left) (y ∷ xs) (suc n) l x hl hn hs a rest =
      let more : ltb (l.max_size * 2) (l.size + 1) ≡ false = ground (arith, hs) in
      rw more (
        then-Reads (read (suc left)) (entry_then (read_entries (suc left) read) l) (entry x)
          (container_bytes entry (suc n) (y ∷ xs)) (f (suc left) x)
          (filled l (numbered f (suc left) (x ∷ y ∷ xs))) (each (suc left) x a.0)
          (entry_then-Reads left n l (f (suc left) x) y xs (entries-Reads left xs) hl hn hs a.1)
          rest)
  entries-Reads zero (y ∷ xs) n l x hl hn hs a rest = absurd (omega (arith, hl))
  entries-Reads (suc left) (y ∷ xs) zero l x hl hn hs a rest = absurd (omega (arith, hn))

  container-Reads :
      (limit n : ℕ) (xs : List A)
      → length xs ≤ n
      → length xs ≤ limit
      → All P xs
      → Reads
          (dls_deserialize read (dls_init limit))
          (container_bytes entry n xs)
          (refilled f limit xs)
  unfolding dls_deserialize container_bytes read_word
  container-Reads limit n [] h k a rest = refl
  container-Reads limit zero (x ∷ xs) h k a rest = absurd (omega (arith, h))
  container-Reads limit (suc n) (x ∷ xs) h k a rest =
      entries-Reads limit xs n (dls_init limit) x (omega (arith, k)) (omega (arith, h))
        (omega (arith, k)) a rest
      ∙ ap (λ s. some (record (refilled f limit (x ∷ xs)) { size = s }, rest))
          (omega (arith, length-numbered f limit (x ∷ xs)))

  pub dls-Reads :
      (limit : ℕ) (l : Dls A)
      → length (written l) ≤ limit
      → All P (written l)
      → Reads
          (dls_deserialize read (dls_init limit))
          (dls_serialize entry l)
          (refilled f limit (written l))
  unfolding dls_serialize
  dls-Reads limit l k a =
      subst (λ b. Reads (dls_deserialize read (dls_init limit)) b (refilled f limit (written l)))
        (sym (container_bytes-take l.max_size l.entries))
        (container-Reads limit l.max_size (written l)
          (omega (arith, length-take l.max_size l.entries)) k a)
