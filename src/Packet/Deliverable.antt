-- ===== src/Packet/Deliverable.antt =====
-- The stanzas that `packet_parse` lets through.
use mukite.Common.{
  ◌≡◌, refl, ap, ◌≢◌, true, false, Option, none, some, Bytes, arith, ok, Meets, map-Meets,
}
use mukite.Buffer.{bpt_null, bpt_blank}
use mukite.Jid.{Jid, jid_empty, jid_struct}
use mukite.Xmlfsm.{Span, XmlAttr, slice}
use mukite.Packet.{IncomingPacket, stanza_iq, stanza_message, stanza_message_groupchat}
use mukite.Packet.Parse.{is_routable, packet_parse}
use mukite.Packet.Accepted.{IsSpelled, has_type, is_name, OnSome}
use mukite.Packet.Fuel.{IsAccepted, packet_parse-Accepts}

-- The attribute is there, and its value spells the well-formed identifier.
abbrev pub Spells : Bytes → Option XmlAttr → Jid → Type 0
Spells mem o j = (a : XmlAttr) × (o ≡ some a) × (jid_struct (some (slice mem a.value)) ≡ (j, true))

pub record IsDeliverable (mem : Bytes) (p : IncomingPacket) : Type 0 where
  pub block : p.mem ≡ mem
  pub known : is_name p.name ≡ true
  pub typed : has_type p.name p.type ≡ true
  pub sender : Spells p.mem p.from_attr p.real_from
  pub target : Spells p.mem p.to_attr p.proxy_to
  pub room : p.name ≢ stanza_iq → bpt_blank p.proxy_to.node ≡ false
  pub addressed :
      p.name ≡ stanza_message → p.proxy_to.resource ≡ none → p.type ≡ stanza_message_groupchat

Spells-IsSpelled :
    (mem : Bytes) (j : Jid) (o : Option XmlAttr)
    → jid_empty j ≡ false
    → IsSpelled mem j o
    → Spells mem o j
Spells-IsSpelled mem j none e s = absurd (cc)
Spells-IsSpelled mem j (some a) e s = (a, refl, s)

module _ (p : IncomingPacket) (routable : is_routable p ≡ true) where
  sender_there : jid_empty p.real_from ≡ false
  unfolding is_routable
  sender_there = ground arith

  target_there : jid_empty p.proxy_to ≡ false
  unfolding is_routable
  target_there = ground arith

  room_there : p.name ≢ stanza_iq → bpt_blank p.proxy_to.node ≡ false
  unfolding is_routable
  room_there h = ground arith

  type_there :
      p.name ≡ stanza_message → p.proxy_to.resource ≡ none → p.type ≡ stanza_message_groupchat
  unfolding is_routable
  type_there h r = ground (arith, ap bpt_null r)

IsAccepted-IsDeliverable :
    (mem : Bytes) (p : IncomingPacket) → IsAccepted mem p → IsDeliverable mem p
IsAccepted-IsDeliverable mem p r = record {
  block = r.attrs.block;
  known = r.attrs.known;
  typed = r.attrs.typed;
  sender =
      Spells-IsSpelled p.mem p.real_from p.from_attr (sender_there p r.routable) r.attrs.sender;
  target = Spells-IsSpelled p.mem p.proxy_to p.to_attr (target_there p r.routable) r.attrs.target;
  room = room_there p r.routable;
  addressed = type_there p r.routable;
}

-- `packet_parse` ends on every block of bytes. A stanza that it accepts is a message, a presence or
-- an iq with a type of its kind; its sender and its target are spelled by its attributes `from` and
-- `to` and well formed; a message or a presence goes to a room, and a message that goes to no
-- occupant is for all of them.
pub packet_parse-IsDeliverable :
    (mem : Bytes) (b : Span) → Meets (OnSome (IsDeliverable mem)) (packet_parse mem b)
packet_parse-IsDeliverable mem b =
    map-Meets (OnSome (IsAccepted mem)) (OnSome (IsDeliverable mem)) (packet_parse mem b) weaken
      (packet_parse-Accepts mem b)
  where
    weaken : (o : Option IncomingPacket) → OnSome (IsAccepted mem) o → OnSome (IsDeliverable mem) o
    weaken none h = tt
    weaken (some p) h = IsAccepted-IsDeliverable mem p h

pub accepted-IsDeliverable :
    (mem : Bytes) (b : Span) (p : IncomingPacket)
    → packet_parse mem b ≡ ok (some p)
    → IsDeliverable mem p
accepted-IsDeliverable mem b p e = rw e at (packet_parse-IsDeliverable mem b)
