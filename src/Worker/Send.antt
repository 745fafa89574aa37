-- ===== src/Worker/Send.antt =====
-- What `worker_send` sends.
use mukite.Common.{
  refl, ℕ, ◌≡◌, Bytes, true, false, Bool, [], some, none, ok, fault, Outcome, ◌>>=◌, length, ltb,
  Bool-cases, inl, inr, if◌then◌else◌, ltb→lt, ltb→le, arith,
}
use mukite.Packet.{BuilderPacket}
use mukite.Builder.{BuilderBuffer, Push}
use mukite.Builder.Times.{Clock}
use mukite.Builder.Stanza.{is_stanza, builder_build}
use mukite.Builder.Tree.{Tree, print}
use mukite.Builder.StanzaTree.{content, stanza_tree}
use mukite.Builder.Writes.{Adds, Stopped}
use mukite.Builder.Exact.{builder_build-Adds}
use mukite.Worker.{WorkerThreadStorage, printed_text, worker_send}

-- The packet, as it is sent by the component of this name.
abbrev pub from_component : WorkerThreadStorage → BuilderPacket → BuilderPacket
from_component storage p = record p { from_host = storage.hostname }

Stopped-dropped :
    (n : ℕ) (o : Outcome (BuilderBuffer × Bool))
    → Stopped n o
    → (o >>= λ built. ok (printed_text built)) ≡ ok none
Stopped-dropped n (ok (b, true)) h = elim h [ ]
Stopped-dropped n (ok (b, false)) h = refl
Stopped-dropped n (fault e) h = elim h [ ]

-- An empty buffer that a code adds a text to.
sent-Adds :
    (m : Push) (doc : Bytes) (size : ℕ)
    → Adds m doc (record { text = []; size = size })
    → (m (record { text = []; size = size }) >>= (λ built. ok (printed_text built)))
      ≡ ok (if ltb size (length doc) then none else some doc)
sent-Adds m doc size adds = elim (Bool-cases (ltb size (length doc))) [
  | inl full ↦ rw full (
      Stopped-dropped size (m (record { text = []; size = size }))
        (adds.stops (omega (arith, ltb→lt size (length doc) full))))
  | inr fits ↦
      rw (fits, adds.whole (omega (arith, ltb→le size (length doc) fits)), ◌>>=◌, printed_text) refl
]

-- Let a packet name a message, a presence or an iq, and hold in its union what its kind says, which
-- its content `t` then describes. `worker_send` writes the text of the stanza's tree, with the
-- component's name as the sender's host, to the ring buffer, if the thread's buffer has room for it,
-- and otherwise writes nothing: no part of a stanza is ever sent.
pub worker_send-whole :
    (c : Clock) (storage : WorkerThreadStorage) (p : BuilderPacket) (t : Tree)
    → is_stanza p.name ≡ true
    → content c (from_component storage p) ≡ ok t
    → worker_send c storage p ≡ (
        let doc = print (stanza_tree (from_component storage p) t) [] in
        ok (if ltb storage.buffer_size (length doc) then none else some doc))
unfolding worker_send
worker_send-whole c storage p t known e =
    sent-Adds (builder_build c (from_component storage p))
      (print (stanza_tree (from_component storage p) t) []) storage.buffer_size
      (builder_build-Adds c (from_component storage p) t
        (record { text = []; size = storage.buffer_size }) known e (omega arith))
