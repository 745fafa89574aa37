-- ===== src/Ring/Pipe/Order.antt =====
-- The bytes between the workers and the writer, over every run of them.
use mukite.Common.{
  Bool, false, ℕ, ◌-◌, ◌≤◌, ◌<◌, ◌≡◌, ◌≢◌, refl, sym, ap, ap₂, ◌∙◌, subst, ◌⊎◌, inl, inr, none,
  ◌++◌, drop, drop-length-append, append_assoc, arith,
}
use mukite.Packet.{RingBufferStats}
use mukite.Ring.{
  RingBuffer, ringbuffer_init, ringbuffer_clear, chunk_read, read_counted, ringbuffer_get_chunk,
  ringbuffer_release_chunk, ringbuffer_offline,
}
use mukite.Ring.Contents.{bytes_from, contents, IsRing}
use mukite.Ring.Read.{
  straight, IsOffered, chunk_read-IsOffered, get_chunk-same, release_chunk-IsRing,
  contents-release_chunk, length-straight,
}
use mukite.Ring.Pipe.{
  Turn, idle, looked, offered, passed, failed, gone, lost, Pipe, Step, write, wait, look, offer,
  overrun, send, fail, release, back, back_out, leave, stop, Reach, here, next, opened,
}
use mukite.Ring.Pipe.Writes.{counted, sent_already, seen_size, IsPipe, write-IsPipe}

-- Counters, and whether more will come, do not matter.
module _ (r : RingBuffer) (stats : RingBufferStats) (online : Bool) where
  counted-IsRing : IsRing r → IsRing (record r { stats = stats; online = online })
  counted-IsRing v = record {
    positive = v.positive;
    reads = v.reads;
    fits = v.fits;
    behind = v.behind;
  }

  counted-contents : contents (record r { stats = stats; online = online }) ≡ contents r
  unfolding contents
  counted-contents = refl

-- The ring changes in its counters only, and the writer counts on other bytes, none of which it has sent.
recounted-IsPipe :
    (s : Pipe) (stats : RingBufferStats) (online : Bool) (t : Turn)
    → sent_already t ≡ sent_already s.turn
    → IsOffered s.ring (counted t)
    → seen_size t ≤ s.ring.data_size
    → IsPipe s
    → IsPipe (record s { ring = record s.ring { stats = stats; online = online }; turn = t })
recounted-IsPipe s stats online t e o k v = record {
  ring = counted-IsRing s.ring stats online v.ring;
  chunk = record { held = o.held; in_line = o.in_line };
  seen = k;
  in_order =
      v.in_order
      ∙ ap₂ (λ k l. s.sent ++ drop k l) (sym e) (sym (counted-contents s.ring stats online));
}

-- The writer goes on without a chunk.
empty_handed-IsPipe :
    (s : Pipe) (t : Turn)
    → sent_already t ≡ sent_already s.turn
    → counted t ≡ 0
    → seen_size t ≤ s.ring.data_size
    → IsPipe s
    → IsPipe (record s { turn = t })
empty_handed-IsPipe s t e c k v =
    recounted-IsPipe s s.ring.stats s.ring.online t e
      (record { held = omega (arith, c); in_line = omega (arith, c, v.ring.reads) }) k v

offer-IsPipe :
    (s : Pipe) (seen : ℕ)
    → s.turn ≡ looked seen
    → chunk_read s.ring seen ≤ s.ring.buffer_size - s.ring.read_position
    → IsPipe s
    → IsPipe (record s { ring = read_counted s.ring; turn = offered (chunk_read s.ring seen) })
offer-IsPipe s seen i h v =
    let there : seen ≤ s.ring.data_size = omega (arith, ap seen_size i, v.seen) in
    recounted-IsPipe s (read_counted s.ring).stats s.ring.online (offered (chunk_read s.ring seen))
      (ap sent_already (sym i)) (chunk_read-IsOffered s.ring seen v.ring there h) (omega arith) v

wait-IsPipe :
    (s : Pipe) (r : RingBuffer)
    → ringbuffer_get_chunk s.ring ≡ (none, r)
    → IsPipe s
    → IsPipe (record s { ring = r })
wait-IsPipe s r e v =
    subst (λ q. IsPipe (record s { ring = q }))
      (subst (λ x. record s.ring { stats = x.stats } ≡ x) (ap (λ x. x.1) e)
        (sym (get_chunk-same s.ring)))
      (recounted-IsPipe s r.stats s.ring.online s.turn refl v.chunk v.seen v)

stop-IsPipe : (s : Pipe) → IsPipe s → IsPipe (record s { ring = ringbuffer_offline s.ring })
unfolding ringbuffer_offline
stop-IsPipe s v = recounted-IsPipe s s.ring.stats false s.turn refl v.chunk v.seen v

-- The first bytes are those that the writer sends.
sent-contents :
    (r : RingBuffer) (k : ℕ)
    → IsRing r
    → IsOffered r k
    → drop k (contents r) ≡ contents (ringbuffer_release_chunk r k)
sent-contents r k v o =
    ap (drop k) (contents-release_chunk r v k o)
    ∙ (ap
          (λ n.
            drop n (straight r.mem r.read_position k ++ contents (ringbuffer_release_chunk r k)))
          (sym (length-straight r.mem r.read_position k))
        ∙ drop-length-append (straight r.mem r.read_position k)
            (contents (ringbuffer_release_chunk r k)))

send-IsPipe :
    (s : Pipe) (c k : ℕ)
    → s.turn ≡ offered c
    → k ≤ c
    → IsPipe s
    → IsPipe
        (record s { turn = passed k; sent = s.sent ++ straight s.ring.mem s.ring.read_position k })
send-IsPipe s c k i h v =
    let count : counted s.turn ≡ c = ap counted i in
    let o : IsOffered s.ring k = record {
      held = omega (arith, v.chunk.held);
      in_line = omega (arith, v.chunk.in_line);
    } in
    let part = straight s.ring.mem s.ring.read_position k in
    record {
      ring = v.ring;
      chunk = o;
      seen = omega arith;
      in_order =
          v.in_order
          ∙ (ap (λ j. s.sent ++ drop j (contents s.ring)) (ap sent_already i)
              ∙ (ap (λ l. s.sent ++ l)
                    (contents-release_chunk s.ring v.ring k o
                      ∙ ap (λ l. part ++ l) (sym (sent-contents s.ring k v.ring o)))
                  ∙ sym (append_assoc s.sent part (drop k (contents s.ring)))));
    }

release-IsPipe :
    (s : Pipe) (k : ℕ)
    → s.turn ≡ passed k
    → IsPipe s
    → IsPipe (record s { ring = ringbuffer_release_chunk s.ring k; turn = idle })
release-IsPipe s k i v =
    let o : IsOffered s.ring k = subst (λ t. IsOffered s.ring (counted t)) i v.chunk in
    record {
      ring = release_chunk-IsRing s.ring v.ring k o;
      chunk = record {
        held = omega arith;
        in_line = omega (arith, (release_chunk-IsRing s.ring v.ring k o).reads);
      };
      seen = omega arith;
      in_order =
          v.in_order
          ∙ (ap (λ t. s.sent ++ drop (sent_already t) (contents s.ring)) i
              ∙ ap (λ l. s.sent ++ l) (sent-contents s.ring k v.ring o));
    }

-- A writer that is off the rails, or a pipe in order.
abbrev LostOrPipe : Pipe → Type 0
LostOrPipe s = (s.turn ≡ lost) ⊎ IsPipe s

-- A step that the writer takes from another turn.
from_turn :
    (s t : Pipe) (turn : Turn)
    → turn ≢ lost
    → s.turn ≡ turn
    → (IsPipe s → LostOrPipe t)
    → LostOrPipe s
    → LostOrPipe t
from_turn s t turn other i kept (inl l) = absurd (other (sym i ∙ l))
from_turn s t turn other i kept (inr v) = kept v

Step-LostOrPipe : (s t : Pipe) → Step s t → LostOrPipe s → LostOrPipe t
Step-LostOrPipe s t (write bytes rest r e f) (inl l) = inl (ap (λ p. p.turn) f ∙ l)
Step-LostOrPipe s t (write bytes rest r e f) (inr v) =
    inr (subst IsPipe (sym f) (write-IsPipe s bytes rest r e v))
Step-LostOrPipe s t (wait r i e f) w =
    from_turn s t idle (λ e. cc) i (λ v. inr (subst IsPipe (sym f) (wait-IsPipe s r e v))) w
Step-LostOrPipe s t (look i h f) w =
    from_turn s t idle (λ e. cc) i
      (λ v. inr (
        subst IsPipe (sym f) (
          empty_handed-IsPipe s (looked s.ring.data_size) (ap sent_already (sym i)) refl
            (omega arith) v)))
      w
Step-LostOrPipe s t (offer seen i h f) w =
    from_turn s t (looked seen) (λ e. cc) i
      (λ v. inr (subst IsPipe (sym f) (offer-IsPipe s seen i h v))) w
Step-LostOrPipe s t (overrun seen i h f) w = inl (ap (λ p. p.turn) f)
Step-LostOrPipe s t (send c k i h f) w =
    from_turn s t (offered c) (λ e. cc) i
      (λ v. inr (subst IsPipe (sym f) (send-IsPipe s c k i h v))) w
Step-LostOrPipe s t (fail c i f) w =
    from_turn s t (offered c) (λ e. cc) i
      (λ v. inr (
        subst IsPipe (sym f)
          (empty_handed-IsPipe s failed (ap sent_already (sym i)) refl (omega arith) v)))
      w
Step-LostOrPipe s t (release k i f) w =
    from_turn s t (passed k) (λ e. cc) i (λ v. inr (subst IsPipe (sym f) (release-IsPipe s k i v)))
      w
Step-LostOrPipe s t (back r i e f) w = inl (ap (λ p. p.turn) f)
Step-LostOrPipe s t (back_out x i e f) w = inl (ap (λ p. p.turn) f)
Step-LostOrPipe s t (leave i f) w =
    from_turn s t idle (λ e. cc) i
      (λ v. inr (
        subst IsPipe (sym f)
          (empty_handed-IsPipe s gone (ap sent_already (sym i)) refl (omega arith) v)))
      w
Step-LostOrPipe s t (stop f) (inl l) = inl (ap (λ p. p.turn) f ∙ l)
Step-LostOrPipe s t (stop f) (inr v) = inr (subst IsPipe (sym f) (stop-IsPipe s v))

opened-IsPipe :
    (stats : RingBufferStats) (mem : ℕ → ℕ) (size : ℕ) → 0 < size → IsPipe (opened stats mem size)
unfolding ringbuffer_init ringbuffer_clear contents bytes_from
opened-IsPipe stats mem size h = record {
  ring = record { positive = h; reads = h; fits = omega arith; behind = ground arith };
  chunk = record { held = omega arith; in_line = omega arith };
  seen = omega arith;
  in_order = refl;
}

Reach-LostOrPipe :
    (stats : RingBufferStats) (mem : ℕ → ℕ) (size : ℕ)
    → 0 < size
    → (s : Pipe) → Reach (opened stats mem size) s
    → LostOrPipe s
Reach-LostOrPipe stats mem size h s here = inr (opened-IsPipe stats mem size h)
Reach-LostOrPipe stats mem size h u (next r st) =
    Step-LostOrPipe _ u st (Reach-LostOrPipe stats mem size h _ r)

-- However workers that write and the writer that sends take turns on a ring buffer of at least one
-- byte, from its start on: unless the writer has released the -1 bytes of a `net_send` that failed, or
-- has been given a chunk that reaches beyond the end of the buffer, since `ringbuffer_get_chunk` reads
-- the size a second time while a worker writes, the buffer is well-formed, the chunk that the writer
-- counts on is in one piece and full of data, and the bytes that the buffer accepted are, in order,
-- those that were sent and then those in the buffer.
pub Reach-IsPipe :
    (stats : RingBufferStats) (mem : ℕ → ℕ) (size : ℕ)
    → 0 < size
    → (s : Pipe) → Reach (opened stats mem size) s
    → s.turn ≢ lost
    → IsPipe s
Reach-IsPipe stats mem size h s r n = elim (Reach-LostOrPipe stats mem size h s r) [
  | inl l ↦ absurd (n l)
  | inr v ↦ v
]
