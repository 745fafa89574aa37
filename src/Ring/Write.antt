-- ===== src/Ring/Write.antt =====
-- What `ringbuffer_write` leaves in the buffer.
use mukite.Common.{
  ℕ, zero, suc, ◌+◌, ◌-◌, min, ◌≤◌, ◌≡◌, refl, sym, ap, ap₂, ◌∙◌, [], ◌∷◌, ◌++◌, Bytes, ◌==◌,
  length, take, drop, length-take, length-drop, ==→eq, drop-drop, drop-nil, take-nil,
  take-take-drop, Bool-cases, inl, inr, arith, append_assoc, append-nil, Outcome, ok,
}
use mukite.Ring.{RingBuffer, cycle, continuous, write_some, write_rounds, ringbuffer_write}
use mukite.Ring.Contents.{contents, IsRing, copy_to-bytes_from}

-- The room that is left.
abbrev pub room_left : RingBuffer → ℕ
room_left r = r.buffer_size - r.data_size

module _ (r : RingBuffer) (v : IsRing r) where
  continuous-le-room : continuous r ≤ room_left r
  unfolding continuous
  continuous-le-room = ground arith

  continuous-le-end : r.write_position + continuous r ≤ r.buffer_size
  unfolding continuous
  continuous-le-end = ground arith

  full-continuous : continuous r ≡ 0 → room_left r ≡ 0
  unfolding continuous
  full-continuous e = ground arith

  -- A block that fits in one piece.
  write_some-IsRing : (bytes : Bytes) → length bytes ≤ continuous r → IsRing (write_some r bytes)
  unfolding write_some cycle
  write_some-IsRing bytes h = record {
    positive = v.positive;
    reads = v.reads;
    fits = omega (arith, continuous-le-room);
    behind = ground (arith, continuous-le-room, continuous-le-end);
  }

  contents-write_some :
      (bytes : Bytes)
      → length bytes ≤ continuous r
      → contents (write_some r bytes) ≡ contents r ++ bytes
  unfolding write_some contents
  contents-write_some bytes h =
      copy_to-bytes_from r.mem r.buffer_size r.read_position r.data_size r.write_position bytes
        v.reads (omega (arith, continuous-le-room)) (omega (arith, continuous-le-end))
        (λ more. v.behind)

-- As many of the bytes as there is room for are in the buffer, behind those that were there, and the
-- others are left to be written.
pub record Written (r : RingBuffer) (bytes : Bytes) (o : Outcome (RingBuffer × Bytes))
    : Type 0 where
  pub after : RingBuffer
  pub returns : o ≡ ok (after, drop (room_left r) bytes)
  pub ring : IsRing after
  pub appended : contents after ≡ contents r ++ take (room_left r) bytes
  pub size : after.buffer_size ≡ r.buffer_size
  pub position : after.read_position ≡ r.read_position

nothing-Written : (fuel : ℕ) (r : RingBuffer) → IsRing r → Written r [] (write_rounds fuel r [])
unfolding write_rounds contents
nothing-Written fuel r v = record {
  after = record r { stats = record r.stats { writes = r.stats.writes + 1 } };
  returns = rw (drop-nil (room_left r)) refl;
  ring = record { positive = v.positive; reads = v.reads; fits = v.fits; behind = v.behind };
  appended = rw (take-nil (room_left r)) (sym (append-nil (contents r)));
  size = refl;
  position = refl;
}

module _ (r : RingBuffer) (v : IsRing r) (b : ℕ) (bytes : Bytes) where
  waits-Written :
      continuous r ≡ 0
      → Written r (b ∷ bytes) (
          ok (record r { stats = record r.stats { overflows = r.stats.overflows + 1 } }, b ∷ bytes))
  unfolding contents
  waits-Written e =
      let full : room_left r ≡ 0 = full-continuous r v e in
      record {
        after = record r { stats = record r.stats { overflows = r.stats.overflows + 1 } };
        returns =
            ap
              (λ k. ok (
                record r { stats = record r.stats { overflows = r.stats.overflows + 1 } },
                drop k (b ∷ bytes),
              ))
              (sym full);
        ring = record { positive = v.positive; reads = v.reads; fits = v.fits; behind = v.behind };
        appended =
            sym (append-nil (contents r)) ∙ ap (λ k. contents r ++ take k (b ∷ bytes)) (sym full);
        size = refl;
        position = refl;
      }

-- A round, and the rounds after it.
module _ (r : RingBuffer) (v : IsRing r) (bytes : Bytes) (k : ℕ) (within : k ≤ continuous r)
    (there : k ≤ length bytes) where
  length-part : length (take k bytes) ≡ k
  length-part = omega (arith, length-take k bytes)

  room-part : room_left (write_some r (take k bytes)) ≡ room_left r - k
  unfolding write_some
  room-part = omega (arith, length-part)

  part-IsRing : IsRing (write_some r (take k bytes))
  part-IsRing = write_some-IsRing r v (take k bytes) (omega (arith, length-part))

  part-contents : contents (write_some r (take k bytes)) ≡ contents r ++ take k bytes
  part-contents = contents-write_some r v (take k bytes) (omega (arith, length-part))

  part-same :
      ((write_some r (take k bytes)).buffer_size ≡ r.buffer_size)
      × ((write_some r (take k bytes)).read_position ≡ r.read_position)
  unfolding write_some
  part-same = (refl, refl)

  round-Written :
      (o : Outcome (RingBuffer × Bytes))
      → Written (write_some r (take k bytes)) (drop k bytes) o
      → Written r bytes o
  round-Written o w =
      let fits : k ≤ room_left r = omega (arith, continuous-le-room r v) in
      record {
        after = w.after;
        returns =
            w.returns
            ∙ ap (λ l. ok (w.after, l))
                (ap (λ m. drop m (drop k bytes)) room-part ∙ drop-drop k (room_left r) bytes fits);
        ring = w.ring;
        appended =
            w.appended
            ∙ (ap₂ (λ c m. c ++ take m (drop k bytes)) part-contents room-part
                ∙ (append_assoc (contents r) (take k bytes) (take (room_left r - k) (drop k bytes))
                    ∙ ap (λ l. contents r ++ l) (take-take-drop k (room_left r) bytes fits)));
        size = w.size ∙ part-same.0;
        position = w.position ∙ part-same.1;
      }

write_rounds-Written :
    (fuel : ℕ) (r : RingBuffer) (bytes : Bytes)
    → length bytes ≤ fuel
    → IsRing r
    → Written r bytes (write_rounds fuel r bytes)
unfolding write_rounds
write_rounds-Written fuel r [] h v = nothing-Written fuel r v
write_rounds-Written zero r (b ∷ bytes) h v = absurd (omega arith)
write_rounds-Written (suc fuel) r (b ∷ bytes) h v = elim (Bool-cases (continuous r == 0)) [
  | inl full ↦ rw full (waits-Written r v b bytes (==→eq (continuous r) 0 full))
  | inr room ↦ rw room (
      let k = min (continuous r) (length (b ∷ bytes)) in
      round-Written r v (b ∷ bytes) k (omega arith) (omega arith) _ (
        write_rounds-Written fuel (write_some r (take k (b ∷ bytes))) (drop k (b ∷ bytes))
          (ground (arith, length-drop k (b ∷ bytes)))
          (part-IsRing r v (b ∷ bytes) k (omega arith) (omega arith))))
]

-- `ringbuffer_write` of any bytes to a well-formed buffer puts as many of them as there is room for
-- behind those that the buffer holds, and touches none of these; it returns if that is all of them,
-- and otherwise waits with the rest.
pub ringbuffer_write-Written :
    (r : RingBuffer) (bytes : Bytes) → IsRing r → Written r bytes (ringbuffer_write r bytes)
unfolding ringbuffer_write
ringbuffer_write-Written r bytes v = write_rounds-Written (length bytes) r bytes (omega arith) v
