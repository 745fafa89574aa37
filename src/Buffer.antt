-- ===== src/Buffer.antt =====
-- xmcomp/src/buffer.h and buffer.c: a `BufferPtr` is the block of bytes that it spans, or null.
use mukite.Common.{
  ℕ, ◌∷◌, ◌*◌, ◌-◌, ◌%◌, ◌+◌, min, ◌&&◌, leb, Bool, true, false, Option, none, some, Bytes, ◌==◌,
  ◌||◌, ltb, if◌then◌else◌, length, bytes_eq, [],
}

abbrev pub BufferPtr : Type 0
BufferPtr = Option Bytes

-- The bytes from `data` to `end`; a null pointer spans none.
abbrev pub contents : BufferPtr → Bytes
contents none = []
contents (some b) = b

abbrev pub bpt_size : BufferPtr → ℕ
bpt_size p = length (contents p)

abbrev pub bpt_null : BufferPtr → Bool
bpt_null none = true
bpt_null (some b) = false

abbrev pub bpt_empty : BufferPtr → Bool
bpt_empty p = bpt_size p == 0

abbrev pub bpt_blank : BufferPtr → Bool
bpt_blank p = bpt_null p || bpt_empty p

-- BPT_EQ_LIT and BPT_EQ_BIN.
abbrev pub bpt_eq : Bytes → BufferPtr → Bool
bpt_eq l p = bytes_eq l (contents p)

-- `realloc(data, size)` filled with `size` bytes. Of size 0 it frees a block and yields null, and
-- of a null pointer it is `malloc(0)`, which is not null in the GNU C library.
unfoldable pub realloc_copy : BufferPtr → Bytes → BufferPtr
realloc_copy target b = if length b == 0 then if bpt_null target then some [] else none else some b

-- BPT_SETTER: the new value of the target, and the function's result.
unfoldable pub bpt_setter : BufferPtr → BufferPtr → ℕ → BufferPtr × Bool
unfolding realloc_copy
bpt_setter target none limit = (none, true)
bpt_setter target (some b) limit =
    if ltb limit (length b) then (target, false) else (realloc_copy target b, true)

-- `buffer_ptr_cpy` and `buffer__ptr_cpy`: a fresh block of the same size, never null.
unfoldable pub buffer_ptr_cpy : BufferPtr → BufferPtr
buffer_ptr_cpy from = some (contents from)

-- A word of 32 bits is a number below 2 ^ 32; the negative ones are those from 2 ^ 31 on.
abbrev pub word : ℕ
word = 4294967296

abbrev pub is_space : ℕ → Bool
is_space c = c == 32 || (leb 9 c && leb c 13)

abbrev pub is_digit : ℕ → Bool
is_digit c = leb b'0' c && leb c b'9'

-- The digits that a string starts with, as a number.
unfoldable pub digits : Bytes → ℕ → ℕ
digits [] n = n
digits (c ∷ b) n = if is_digit c then digits b (n * 10 + (c - b'0')) else n

-- `(int) strtol(s, 0, 10)`: a long of 64 bits, which is kept at its bounds, cut to 32.
unfoldable pub to_int : Bool → ℕ → ℕ
to_int true n = (word - min n 9223372036854775808 % word) % word
to_int false n = min n 9223372036854775807 % word

unfoldable pub signed : Bytes → ℕ
unfolding digits to_int
signed [] = 0
signed (c ∷ b) =
    if c == b'-'
    then to_int true (digits b 0)
    else if c == b'+'
    then to_int false (digits b 0)
    else to_int false (digits (c ∷ b) 0)

-- `atoi`
unfoldable pub atoi : Bytes → ℕ
unfolding signed
atoi [] = 0
atoi (c ∷ b) = if is_space c then atoi b else signed (c ∷ b)

-- `btoi`: a string of more than 20 bytes is 0.
unfoldable pub btoi : BufferPtr → ℕ
unfolding atoi
btoi p = if leb 21 (bpt_size p) then 0 else atoi (contents p)
