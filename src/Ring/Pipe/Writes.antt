-- ===== src/Ring/Pipe/Writes.antt =====
-- The state of the ring buffer and the writer, and what a worker's call does to it.
use mukite.Common.{
  ℕ, ◌-◌, ◌≤◌, ◌≡◌, sym, ap, ◌∙◌, subst, ◌++◌, Bytes, length, take, drop, length-append,
  take-length-drop, drop-append, append_assoc, arith, Outcome, ok,
}
use mukite.Ring.{RingBuffer, ringbuffer_write}
use mukite.Ring.Contents.{contents, IsRing, length-bytes_from}
use mukite.Ring.Write.{room_left, ringbuffer_write-Written}
use mukite.Ring.Read.{IsOffered}
use mukite.Ring.Pipe.{Turn, idle, looked, offered, passed, failed, gone, lost, Pipe}

-- How many bytes the writer may still count on, and how many of them are sent already.
abbrev pub counted : Turn → ℕ
counted idle = 0
counted (looked d) = 0
counted (offered k) = k
counted (passed k) = k
counted failed = 0
counted gone = 0
counted lost = 0

abbrev pub sent_already : Turn → ℕ
sent_already idle = 0
sent_already (looked d) = 0
sent_already (offered k) = 0
sent_already (passed k) = k
sent_already failed = 0
sent_already gone = 0
sent_already lost = 0

-- How many bytes the writer has seen in the buffer.
abbrev pub seen_size : Turn → ℕ
seen_size idle = 0
seen_size (looked d) = d
seen_size (offered k) = 0
seen_size (passed k) = 0
seen_size failed = 0
seen_size gone = 0
seen_size lost = 0

-- The bytes that are not sent yet.
abbrev pub unsent : Pipe → Bytes
unsent s = drop (sent_already s.turn) (contents s.ring)

pub record IsPipe (s : Pipe) : Type 0 where
  pub ring : IsRing s.ring
  pub chunk : IsOffered s.ring (counted s.turn)
  pub seen : seen_size s.turn ≤ s.ring.data_size
  pub in_order : s.accepted ≡ s.sent ++ unsent s

same_result : {A : Type 0} (o : Outcome A) (x y : A) → o ≡ ok x → o ≡ ok y → x ≡ y
same_result o x y e f = cc

length-contents : (r : RingBuffer) → length (contents r) ≡ r.data_size
unfolding contents
length-contents r = length-bytes_from r.mem r.buffer_size r.read_position r.data_size

already-le : (t : Turn) → sent_already t ≤ counted t
already-le idle = omega arith
already-le (looked d) = omega arith
already-le (offered k) = omega arith
already-le (passed k) = omega arith
already-le failed = omega arith
already-le gone = omega arith
already-le lost = omega arith

-- Bytes that are added behind the others leave the chunk of the writer where it is.
grown-IsPipe :
    (s : Pipe) (r : RingBuffer) (more : Bytes)
    → IsRing r
    → contents r ≡ contents s.ring ++ more
    → r.buffer_size ≡ s.ring.buffer_size
    → r.read_position ≡ s.ring.read_position
    → IsPipe s
    → IsPipe (record s { ring = r; accepted = s.accepted ++ more })
grown-IsPipe s r more w e size position v =
    let grows : s.ring.data_size ≤ r.data_size = omega (
      arith,
      ap length e,
      length-contents r,
      length-contents s.ring,
      length-append (contents s.ring) more,
    ) in
    record {
      ring = w;
      chunk = record {
        held = omega (arith, v.chunk.held);
        in_line = omega (arith, v.chunk.in_line);
      };
      seen = omega (arith, v.seen, grows);
      in_order =
          ap (λ l. l ++ more) v.in_order
          ∙ (append_assoc s.sent (unsent s) more
              ∙ ap (λ l. s.sent ++ l)
                  (sym (
                      drop-append (sent_already s.turn) (contents s.ring) more
                        (omega (arith, already-le s.turn, v.chunk.held, length-contents s.ring)))
                    ∙ ap (drop (sent_already s.turn)) (sym e)));
    }

pub write-IsPipe :
    (s : Pipe) (bytes rest : Bytes) (r : RingBuffer)
    → ringbuffer_write s.ring bytes ≡ ok (r, rest)
    → IsPipe s
    → IsPipe
        (record s { ring = r; accepted = s.accepted ++ take (length bytes - length rest) bytes })
write-IsPipe s bytes rest r e v =
    let w = ringbuffer_write-Written s.ring bytes v.ring in
    let same : (r, rest) ≡ (w.after, drop (room_left s.ring) bytes) =
      same_result _ _ _ e w.returns in
    let more : take (length bytes - length rest) bytes ≡ take (room_left s.ring) bytes =
      ap (λ x. take (length bytes - length x.1) bytes) same
      ∙ take-length-drop (room_left s.ring) bytes in
    subst
      (λ q.
        IsPipe
          (record s { ring = q; accepted = s.accepted ++ take (length bytes - length rest) bytes }))
      (ap (λ x. x.0) (sym same))
      (grown-IsPipe s w.after (take (length bytes - length rest) bytes) w.ring
        (w.appended ∙ ap (λ l. contents s.ring ++ l) (sym more)) w.size w.position v)
