-- ===== src/Ring/Contents.antt =====
-- The bytes that a ring buffer holds, in order.
use mukite.Common.{
  ℕ, zero, suc, ◌+◌, ◌-◌, ◌≤◌, ◌<◌, ◌≡◌, refl, sym, ap, ap₂, ◌∙◌, [], ◌∷◌, ◌++◌, Bytes, ltb,
  if◌then◌else◌, length, arith, append_assoc, append-nil,
}
use mukite.Ring.{RingBuffer, set_byte, copy_to, cycle}

-- `n` bytes from a position on, where the start follows the end.
unfoldable pub bytes_from : (ℕ → ℕ) → ℕ → ℕ → ℕ → Bytes
bytes_from mem size p zero = []
bytes_from mem size p (suc n) = mem p ∷ bytes_from mem size (cycle size (p + 1)) n

unfoldable pub contents : RingBuffer → Bytes
contents r = bytes_from r.mem r.buffer_size r.read_position r.data_size

-- The positions are in the block, the data fit, and the next byte goes behind them.
pub record IsRing (r : RingBuffer) : Type 0 where
  pub positive : 0 < r.buffer_size
  pub reads : r.read_position < r.buffer_size
  pub fits : r.data_size ≤ r.buffer_size
  pub behind : r.write_position ≡ (
      if ltb (r.read_position + r.data_size) r.buffer_size
      then r.read_position + r.data_size
      else r.read_position + r.data_size - r.buffer_size)

-- The position `n` bytes further.
abbrev pub further : ℕ → ℕ → ℕ → ℕ
further size p n = if ltb (p + n) size then p + n else p + n - size

pub cycle-lt : (size p : ℕ) → p < size → cycle size (p + 1) < size
unfolding cycle
cycle-lt size p h = ground arith

further-cycle :
    (size p n : ℕ)
    → p < size
    → n < size
    → further size (cycle size (p + 1)) n ≡ further size p (suc n)
unfolding cycle
further-cycle size p n h k = ground arith

-- A byte outside of the data is written.
bytes_from-other :
    (mem : ℕ → ℕ) (size p n b : ℕ)
    → p < size
    → n < size
    → (w : ℕ) → w ≡ further size p n
    → bytes_from (set_byte mem w b) size p n ≡ bytes_from mem size p n
unfolding bytes_from
bytes_from-other mem size p zero b hp hn w e = refl
bytes_from-other mem size p (suc n) b hp hn w e = ap₂ (◌∷◌) (ground arith) (
    bytes_from-other mem size (cycle size (p + 1)) n b (cycle-lt size p hp) (omega arith) w
      (e ∙ sym (further-cycle size p n hp (omega arith))))

-- One byte more.
bytes_from-snoc :
    (mem : ℕ → ℕ) (size p n : ℕ)
    → p < size
    → n < size
    → bytes_from mem size p (suc n) ≡ bytes_from mem size p n ++ (mem (further size p n) ∷ [])
unfolding bytes_from
bytes_from-snoc mem size p zero hp hn = ap (λ q. mem q ∷ []) (ground arith)
bytes_from-snoc mem size p (suc n) hp hn =
    ap (λ l. mem p ∷ l)
      (bytes_from-snoc mem size (cycle size (p + 1)) n (cycle-lt size p hp) (omega arith)
        ∙ ap (λ q. bytes_from mem size (cycle size (p + 1)) n ++ (mem q ∷ []))
            (further-cycle size p n hp (omega arith)))

set_byte-snoc :
    (mem : ℕ → ℕ) (size p n b w : ℕ)
    → p < size
    → n < size
    → w ≡ further size p n
    → bytes_from (set_byte mem w b) size p (suc n) ≡ bytes_from mem size p n ++ (b ∷ [])
set_byte-snoc mem size p n b w hp hn e =
    bytes_from-snoc (set_byte mem w b) size p n hp hn
    ∙ ap₂ (λ l c. l ++ (c ∷ [])) (bytes_from-other mem size p n b hp hn w e) (ground arith)

-- A block that is copied behind the data, and does not reach beyond the end.
pub copy_to-bytes_from :
    (mem : ℕ → ℕ) (size p n w : ℕ) (bytes : Bytes)
    → p < size
    → n + length bytes ≤ size
    → w + length bytes ≤ size
    → (0 < length bytes → w ≡ further size p n)
    → bytes_from (copy_to mem w bytes) size p (n + length bytes) ≡ bytes_from mem size p n ++ bytes
unfolding copy_to
copy_to-bytes_from mem size p n w [] hp hn hw e =
    ap (bytes_from mem size p) (omega arith) ∙ sym (append-nil (bytes_from mem size p n))
copy_to-bytes_from mem size p n w (b ∷ bytes) hp hn hw e =
    ap (bytes_from (copy_to (set_byte mem w b) (w + 1) bytes) size p) (omega arith)
    ∙ (copy_to-bytes_from (set_byte mem w b) size p (suc n) (w + 1) bytes hp (omega arith)
          (omega arith) (λ more. ground (arith, e (omega arith)))
        ∙ (ap (λ l. l ++ bytes) (set_byte-snoc mem size p n b w hp (omega arith) (e (omega arith)))
            ∙ append_assoc (bytes_from mem size p n) (b ∷ []) bytes))

-- The data in two parts.
pub bytes_from-split :
    (mem : ℕ → ℕ) (size p m n : ℕ)
    → p < size
    → m ≤ size
    → bytes_from mem size p (m + n)
      ≡ bytes_from mem size p m ++ bytes_from mem size (further size p m) n
unfolding bytes_from
bytes_from-split mem size p zero n hp hm =
    ap₂ (λ q k. bytes_from mem size q k) (ground arith) (omega arith)
bytes_from-split mem size p (suc m) n hp hm =
    let e : suc m + n ≡ suc (m + n) = omega arith in
    ap (bytes_from mem size p) e
    ∙ ap (λ l. mem p ∷ l)
        (bytes_from-split mem size (cycle size (p + 1)) m n (cycle-lt size p hp) (omega arith)
          ∙ ap (λ q. bytes_from mem size (cycle size (p + 1)) m ++ bytes_from mem size q n)
              (further-cycle size p m hp (omega arith)))

pub length-bytes_from : (mem : ℕ → ℕ) (size p n : ℕ) → length (bytes_from mem size p n) ≡ n
unfolding bytes_from
length-bytes_from mem size p zero = refl
length-bytes_from mem size p (suc n) =
    omega (arith, length-bytes_from mem size (cycle size (p + 1)) n)
