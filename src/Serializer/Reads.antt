-- ===== src/Serializer/Reads.antt =====
-- What is read back of numbers and buffers.
use mukite.Common.{
  ℕ, zero, suc, ◌+◌, ◌*◌, ◌/◌, ◌%◌, ◌<◌, ◌≤◌, ◌≡◌, refl, ap, ap₂, ◌∙◌, false, none, some, [], ◌∷◌,
  ◌++◌, Bytes, ◌==◌, ltb, leb, ◌||◌, length, take, drop, length-append, append_assoc, arith,
}
use mukite.Buffer.{BufferPtr, bpt_size, contents}
use mukite.Serializer.{
  Reader, pure, and_then, ◌>>=◌, read_bytes, word_bytes, read_word, int_bytes, read_int,
  buffer_serialize, read_sized, buffer_deserialize,
}

-- The reader takes these bytes for this value.
abbrev pub Reads : {A : Type 0} → Reader A → Bytes → A → Type 0
Reads m b a = (rest : Bytes) → m (b ++ rest) ≡ some (a, rest)

pub then-Reads :
    {A B : Type 0} (m : Reader A) (k : A → Reader B) (b c : Bytes) (x : A) (y : B)
    → Reads m b x
    → Reads (k x) c y
    → Reads (m >>= k) (b ++ c) y
then-Reads m k b c x y h g rest =
    ap (λ o. and_then o k) (ap m (append_assoc b c rest) ∙ h (c ++ rest)) ∙ g rest

pub last-Reads :
    {A B : Type 0} (m : Reader A) (f : A → B) (b : Bytes) (x : A)
    → Reads m b x
    → Reads (m >>= λ a. pure (f a)) b (f x)
last-Reads m f b x h rest = ap (λ o. and_then o (λ a. pure (f a))) (h rest)

-- The numbers of `n` bytes.
abbrev pub bound : ℕ → ℕ
bound zero = 1
bound (suc n) = 256 * bound n

pub word-Reads : (n v : ℕ) → v < bound n → Reads (read_word n) (word_bytes n v) v
unfolding read_word word_bytes
word-Reads zero v h rest = ap (λ w. some (w, rest)) (omega arith)
word-Reads (suc n) v h rest =
    ap (λ o. and_then o (λ w. pure (v % 256 + 256 * w))) (word-Reads n (v / 256) (omega arith) rest)
    ∙ ap (λ w. some (w, rest)) (omega arith)

take-length : (b rest : Bytes) → take (length b) (b ++ rest) ≡ b
take-length [] rest = refl
take-length (c ∷ b) rest = ap (λ l. c ∷ l) (take-length b rest)

drop-length : (b rest : Bytes) → drop (length b) (b ++ rest) ≡ rest
drop-length [] rest = refl
drop-length (c ∷ b) rest = drop-length b rest

bytes-Reads : (b : Bytes) → Reads (read_bytes (length b)) b b
unfolding read_bytes
bytes-Reads b rest =
    let there : ltb (length (b ++ rest)) (length b) ≡ false =
      ground (arith, length-append b rest) in
    rw there (ap₂ (λ l m. some (l, m)) (take-length b rest) (drop-length b rest))

-- What a pointer is after it was written and read: an empty block becomes null.
abbrev pub stored : BufferPtr → BufferPtr
stored none = none
stored (some []) = none
stored (some (c ∷ b)) = some (c ∷ b)

sized-Reads :
    (limit : ℕ) (p : BufferPtr)
    → bpt_size p ≤ limit
    → limit < 2147483648
    → Reads (read_sized limit (bpt_size p)) (contents p) (stored p)
unfolding read_sized
sized-Reads limit none h k rest = ground arith
sized-Reads limit (some []) h k rest = ground arith
sized-Reads limit (some (c ∷ b)) h k rest =
    let positive : (suc (length b) == 0) ≡ false = ground arith in
    let fits : (leb 2147483648 (suc (length b)) || ltb limit (suc (length b))) ≡ false =
      ground arith in
    rw (fits, positive)
      (last-Reads (read_bytes (length (c ∷ b))) some (c ∷ b) (c ∷ b) (bytes-Reads (c ∷ b)) rest)

pub buffer-Reads :
    (limit : ℕ) (p : BufferPtr)
    → bpt_size p ≤ limit
    → limit < 2147483648
    → Reads (buffer_deserialize limit) (buffer_serialize p) (stored p)
unfolding buffer_deserialize buffer_serialize
buffer-Reads limit p h k =
    then-Reads read_int (read_sized limit) (int_bytes (bpt_size p)) (contents p) (bpt_size p)
      (stored p) (word-Reads 4 (bpt_size p) (omega arith)) (sized-Reads limit p h k)
