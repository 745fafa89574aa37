-- ===== src/Ring/Read.antt =====
-- What `ringbuffer_get_chunk` offers, and what `ringbuffer_release_chunk` takes away.
use mukite.Common.{
  ℕ, zero, suc, ◌+◌, ◌-◌, ◌≤◌, ◌≡◌, refl, sym, ap, ap₂, ◌∙◌, [], ◌∷◌, ◌++◌, Bytes, length, arith,
}
use mukite.Ring.{RingBuffer, cycle, chunk_read, ringbuffer_get_chunk, ringbuffer_release_chunk}
use mukite.Ring.Contents.{bytes_from, contents, IsRing, bytes_from-split}

-- The bytes that `send` copies, from a position on.
unfoldable pub straight : (ℕ → ℕ) → ℕ → ℕ → Bytes
straight mem p zero = []
straight mem p (suc n) = mem p ∷ straight mem (p + 1) n

straight-bytes_from :
    (mem : ℕ → ℕ) (size p n : ℕ) → p + n ≤ size → straight mem p n ≡ bytes_from mem size p n
unfolding straight bytes_from cycle
straight-bytes_from mem size p zero h = refl
straight-bytes_from mem size p (suc zero) h = refl
straight-bytes_from mem size p (suc (suc n)) h =
    ap (λ l. mem p ∷ l)
      (straight-bytes_from mem size (p + 1) (suc n) (omega arith)
        ∙ ap (λ q. bytes_from mem size q (suc n)) (ground arith))

pub length-straight : (mem : ℕ → ℕ) (p n : ℕ) → length (straight mem p n) ≡ n
unfolding straight
length-straight mem p zero = refl
length-straight mem p (suc n) = omega (arith, length-straight mem (p + 1) n)

-- So many bytes can be sent.
pub record IsOffered (r : RingBuffer) (k : ℕ) : Type 0 where
  pub held : k ≤ r.data_size
  pub in_line : r.read_position + k ≤ r.buffer_size

-- What `ringbuffer_get_chunk` returns is there, and in one piece if it does not reach beyond the end.
pub chunk_read-IsOffered :
    (r : RingBuffer) (seen : ℕ)
    → IsRing r
    → seen ≤ r.data_size
    → chunk_read r seen ≤ r.buffer_size - r.read_position
    → IsOffered r (chunk_read r seen)
chunk_read-IsOffered r seen v h k = record {
  held = ground (arith, h);
  in_line = ground (arith, k, v.reads);
}

-- Asking changes a counter only.
pub get_chunk-same :
    (r : RingBuffer)
    → ((ringbuffer_get_chunk r).1 ≡ record r { stats = (ringbuffer_get_chunk r).1.stats })
unfolding ringbuffer_get_chunk
get_chunk-same r = ground arith

module _ (r : RingBuffer) (v : IsRing r) (k : ℕ) (o : IsOffered r k) where
  pub release_chunk-IsRing : IsRing (ringbuffer_release_chunk r k)
  unfolding ringbuffer_release_chunk cycle
  release_chunk-IsRing = record {
    positive = v.positive;
    reads = ground (arith, v.reads, o.in_line);
    fits = omega (arith, v.fits);
    behind = v.behind ∙ ground (arith, v.reads, v.fits, o.held, o.in_line);
  }

  -- The bytes that are sent, and those that are left.
  pub contents-release_chunk :
      contents r ≡ straight r.mem r.read_position k ++ contents (ringbuffer_release_chunk r k)
  unfolding contents ringbuffer_release_chunk cycle
  contents-release_chunk =
      ap (bytes_from r.mem r.buffer_size r.read_position) (omega (arith, o.held))
      ∙ (bytes_from-split r.mem r.buffer_size r.read_position k (r.data_size - k) v.reads
            (omega (arith, v.fits, o.held))
          ∙ ap₂ (λ l q. l ++ bytes_from r.mem r.buffer_size q (r.data_size - k))
              (sym (straight-bytes_from r.mem r.buffer_size r.read_position k o.in_line))
              (ground (arith, v.reads, o.in_line)))
