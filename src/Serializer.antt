-- ===== src/Serializer.antt =====
-- src/serializer.h, the containers of src/utss.h and the buffers of xmcomp/src/buffer.c in a file. A file
-- is its bytes; a number is written with its low byte first. A write succeeds.
pub mod Reads
pub mod Lists
use mukite.Common.{
  ℕ, zero, suc, ◌+◌, ◌*◌, ◌/◌, ◌%◌, ◌-◌, Bool, true, false, not, ◌||◌, Option, none, some, List, [],
  ◌∷◌, ◌++◌, Bytes, ◌==◌, ltb, leb, if◌then◌else◌, length, take, drop,
}
use mukite.Buffer.{BufferPtr, bpt_size, contents}
use mukite.Utss.{Dls, dls_append}

-- A function that reads from a file: what it read, and the bytes that are left, or none for FALSE.
abbrev pub Reader : Type 0 → Type 0
Reader A = Bytes → Option (A × Bytes)

abbrev pub pure : {A : Type 0} → A → Reader A
pure a b = some (a, b)

abbrev pub fail : {A : Type 0} → Reader A
fail b = none

abbrev pub and_then : {A B : Type 0} → Option (A × Bytes) → (A → Reader B) → Option (B × Bytes)
and_then none k = none
and_then (some (a, b)) k = k a b

infixl 5 ◌>>=◌
abbrev pub ◌>>=◌ : {A B : Type 0} → Reader A → (A → Reader B) → Reader B
◌>>=◌ m k b = and_then (m b) k

-- `fread` of so many bytes.
unfoldable pub read_bytes : ℕ → Reader Bytes
read_bytes n b = if ltb (length b) n then none else some (take n b, drop n b)

-- SERIALIZE_BASE and DESERIALIZE_BASE of a number of `n` bytes.
unfoldable pub word_bytes : ℕ → ℕ → Bytes
word_bytes zero v = []
word_bytes (suc n) v = v % 256 ∷ word_bytes n (v / 256)

unfoldable pub read_word : ℕ → Reader ℕ
read_word zero b = some (0, b)
read_word (suc n) [] = none
read_word (suc n) (c ∷ b) = and_then (read_word n b) (λ v. pure (c + 256 * v))

-- An `int`, and the presence mark, which is a pointer.
abbrev pub int_bytes : ℕ → Bytes
int_bytes v = word_bytes 4 v

abbrev pub read_int : Reader ℕ
read_int = read_word 4

abbrev pub mark : ℕ → Bytes
mark v = word_bytes 8 v

abbrev pub read_mark : Reader ℕ
read_mark = read_word 8

-- `buffer_serialize` and `buffer_ptr_serialize`
unfoldable pub buffer_serialize : BufferPtr → Bytes
unfolding word_bytes
buffer_serialize p = int_bytes (bpt_size p) ++ contents p

-- What follows the size. From 2 ^ 31 on it is negative.
unfoldable pub read_sized : ℕ → ℕ → Reader BufferPtr
unfolding read_bytes
read_sized limit size =
    if leb 2147483648 size || ltb limit size
    then fail
    else if size == 0
    then pure none
    else (do b ← read_bytes size; pure (some b))

-- `buffer_deserialize` and `buffer_ptr_deserialize`
unfoldable pub buffer_deserialize : ℕ → Reader BufferPtr
unfolding read_word read_sized
buffer_deserialize limit = do size ← read_int; read_sized limit size

module _ {A : Type 0} where
  -- The loop of _CONTAINER_SERIALIZE, with the number of elements that may still be written.
  unfoldable pub container_bytes : (A → Bytes) → ℕ → List A → Bytes
  unfolding word_bytes
  container_bytes entry left [] = mark 0
  container_bytes entry zero (x ∷ xs) = mark 0
  container_bytes entry (suc left) (x ∷ xs) = mark 1 ++ (entry x ++ container_bytes entry left xs)

  -- DLS_SERIALIZE
  unfoldable pub dls_serialize : (A → Bytes) → Dls A → Bytes
  unfolding container_bytes
  dls_serialize entry l = container_bytes entry l.max_size l.entries

  -- What a round does with the entry and the mark behind it.
  abbrev pub entry_then : (Dls A → Reader (Dls A)) → Dls A → A → Reader (Dls A)
  entry_then again l x = do
    more ← read_mark
    let grown : Dls A = dls_append (record l { size = l.size + 1 }) x
    elim (more == 0) [ true ↦ pure grown | false ↦ again grown ]

  -- The loop of _CONTAINER_DESERIALIZE. The counter grows by two in a round, and ends the loop beyond
  -- twice the limit; so the limit bounds the rounds. An entry is read into a block whose address is
  -- the number of rounds that are left.
  unfoldable pub read_entries : ℕ → (ℕ → Reader A) → Dls A → Reader (Dls A)
  unfolding read_word
  read_entries zero entry l = fail
  read_entries (suc left) entry l =
      if ltb (l.max_size * 2) (l.size + 1)
      then fail
      else (do x ← entry left; entry_then (read_entries left entry) l x)

  -- DLS_DESERIALIZE
  unfoldable pub dls_deserialize : (ℕ → Reader A) → Dls A → Reader (Dls A)
  unfolding read_word read_entries
  dls_deserialize entry l = do
    there ← read_mark
    elim (there == 0) [
      | true ↦ pure l
      | false ↦ read_entries (suc l.max_size) entry (record l { entries = []; size = 0 })
    ]
