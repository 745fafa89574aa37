-- ===== src/Worker/Bounce.antt =====
-- `worker_bounce` of worker.c, of a stanza that `packet_parse` accepted.
use mukite.Common.{
  ℕ, ◌≡◌, ◌≤◌, refl, true, Option, none, some, [], Bytes, ltb, if◌then◌else◌, length, arith, ok,
  ◌>>=◌,
}
use mukite.Buffer.{BufferPtr}
use mukite.Xmlfsm.{Span, XmlAttr}
use mukite.Packet.{
  IncomingPacket, BuilderPacket, XmppError, blank_type, blank_span, blank_attr, switch_attr,
  packet_cleanup, pushed_inner, cleanup_to_send, cleanup_bounce, worker_bounce, stanza_error,
  empty_packet, bytes_at, error,
}
use mukite.Packet.Parse.{packet_parse}
use mukite.Packet.Accepted.{is_name}
use mukite.Packet.Deliverable.{IsDeliverable, accepted-IsDeliverable}
use mukite.Builder.Times.{Clock}
use mukite.Builder.Stanza.{is_stanza}
use mukite.Builder.Tree.{print}
use mukite.Builder.Reference.{error_tree}
use mukite.Builder.StanzaTree.{stanza_tree}
use mukite.Worker.{WorkerThreadStorage, worker_send}
use mukite.Worker.Send.{from_component, worker_send-whole}

is_stanza-is_name : (name : ℕ) → is_name name ≡ true → is_stanza name ≡ true
unfolding is_stanza
is_stanza-is_name name h = ground arith

blank_there :
    (o : Option XmlAttr) (a : XmlAttr) (mem : Bytes)
    → o ≡ some a
    → (m : Bytes) × (blank_attr o mem ≡ ok m)
unfolding blank_attr
blank_there none a mem e = absurd (cc)
blank_there (some b) a mem e = (_, refl)

switch_there :
    (o : Option XmlAttr) (a : XmlAttr) (mem : Bytes)
    → o ≡ some a
    → (m : Bytes) × (switch_attr o mem ≡ ok m)
unfolding switch_attr
switch_there none a mem e = absurd (cc)
switch_there (some b) a mem e = (_, refl)

-- The block once the nodes and the type are blanked.
abbrev blanked : IncomingPacket → Bytes
blanked p = blank_type p.type_attr (blank_span p.muc_user (blank_span p.muc p.mem))

-- With both addresses there, a stanza is turned around.
cleanup_bounce_lem :
    (p : IncomingPacket) (to from m : Bytes)
    → blank_attr p.to_attr (blanked p) ≡ ok to
    → switch_attr p.from_attr to ≡ ok from
    → packet_cleanup p cleanup_bounce ≡ ok (record p { mem = from })
unfolding packet_cleanup
cleanup_bounce_lem p to from m e f = rw (e, ◌>>=◌, f) refl

-- The error that goes back, once the block is turned around.
abbrev bounced : IncomingPacket → XmppError → BufferPtr → Bytes → BuilderPacket
bounced p e from_node m = record empty_packet {
  name = p.name;
  type = stanza_error;
  from_node = from_node;
  header = bytes_at m p.header;
  user_data = bytes_at m p.inner;
  sys_data = error e;
}

-- The part of the stanza between its tags does not end before it starts.
abbrev pub InOrder : Option Span → Type 0
InOrder none = Unit {0}
InOrder (some s) = s.start ≤ s.stop

pushed_inner-InOrder : (p : IncomingPacket) (o : Option Span) → InOrder o → pushed_inner p o ≡ ok p
pushed_inner-InOrder p none h = refl
pushed_inner-InOrder p (some s) h = ground (arith, h)

worker_bounce-bounced :
    (p : IncomingPacket) (e : XmppError) (from_node : BufferPtr) (m : Bytes)
    → InOrder p.inner
    → packet_cleanup p cleanup_bounce ≡ ok (record p { mem = m })
    → worker_bounce p e from_node ≡ ok (bounced p e from_node m)
unfolding worker_bounce cleanup_to_send
worker_bounce-bounced p e from_node m v h =
    rw (h, ◌>>=◌, pushed_inner-InOrder (record p { mem = m }) p.inner v, ◌>>=◌) refl

turned :
    (mem : Bytes) (p : IncomingPacket)
    → IsDeliverable mem p
    → (m : Bytes) × (packet_cleanup p cleanup_bounce ≡ ok (record p { mem = m }))
turned mem p d =
    let to = blank_there p.to_attr d.target.0 (blanked p) d.target.1 in
    let from = switch_there p.from_attr d.sender.0 to.0 d.sender.1 in
    (from.0, cleanup_bounce_lem p to.0 from.0 p.mem to.1 from.1)

-- A stanza that `packet_parse` accepted can be answered with an error, if the part between its tags does
-- not end before it starts, as it can where the closing tag is shorter than the name: `worker_bounce`
-- reads no missing attribute, and `worker_send` then writes the text of the whole answer to the ring
-- buffer, an element of the stanza's own name with the error in it, or writes nothing, if the thread's
-- buffer is too small for it.
pub worker_bounce-worker_send :
    (c : Clock) (storage : WorkerThreadStorage) (mem : Bytes) (b : Span) (p : IncomingPacket)
    (e : XmppError) (from_node : BufferPtr)
    → packet_parse mem b ≡ ok (some p)
    → InOrder p.inner
    → (egress : BuilderPacket) × (worker_bounce p e from_node ≡ ok egress)
      × (egress.name ≡ p.name)
      × (worker_send c storage egress ≡ (
          let doc = print (stanza_tree (from_component storage egress) (error_tree e)) [] in
          ok (if ltb storage.buffer_size (length doc) then none else some doc)))
worker_bounce-worker_send c storage mem b p e from_node accepted v =
    let d = accepted-IsDeliverable mem b p accepted in
    let m = turned mem p d in
    (
      bounced p e from_node m.0,
      worker_bounce-bounced p e from_node m.0 v m.1,
      refl,
      worker_send-whole c storage (bounced p e from_node m.0) (error_tree e)
          (is_stanza-is_name p.name d.known) refl,
    )
