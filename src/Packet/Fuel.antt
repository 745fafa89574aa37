-- ===== src/Packet/Fuel.antt =====
-- The fuel of the loops of `packet_parse`, and what they leave.
use mukite.Common.{
  ℕ, zero, suc, ◌+◌, ◌-◌, ◌<◌, ◌≤◌, ◌≡◌, refl, ap, inl, inr, true, Option, none, some, Bytes, lit,
  ◌==◌, Bool-cases, arith, length, bytes_eq, Outcome, ok, Meets, bind-Meets,
}
use mukite.Xmlfsm.{
  Span, XmlAttr, slice, Node, AttrState, parse_success, node_empty, node_noattr, xmlfsm_next_attr,
  xmlfsm_node_name, xmlfsm_skipto_attr,
}
use mukite.Packet.{IncomingPacket, stanza_presence}
use mukite.Packet.Parse.{
  set_muc_user, set_muc, set_by_xmlns, presence_node, if_some, presence_nodes, nodes_inside,
  parse_presence_inner, take_attr, header_to, is_routable, check_inner, take_attrs, name_by_word,
  named_packet, packet_parse,
}
use mukite.Xmlfsm.Fuel.{next_attr-Advanced, Advanced, xmlfsm_skipto_attr-Terminates}
use mukite.Xmlfsm.Siblings.{siblings-Meets, node_name-Terminates}
use mukite.Packet.Accepted.{is_name, IsRead, OnSome, take_attr-IsRead}

-- What the checks behind the attributes leave, and the nodes of a presence keep.
pub record IsAccepted (mem : Bytes) (p : IncomingPacket) : Type 0 where
  pub attrs : IsRead mem p
  pub routable : is_routable p ≡ true

set_muc_user-IsAccepted :
    (mem : Bytes) (p : IncomingPacket) (n : Node) (s : Option Span)
    → IsAccepted mem p
    → OnSome (IsAccepted mem) (set_muc_user p n s)
unfolding set_muc_user is_routable
set_muc_user-IsAccepted mem p n none r = ground arith
set_muc_user-IsAccepted mem p n (some s) r = tt

set_muc-IsAccepted :
    (mem : Bytes) (p : IncomingPacket) (n : Node) (s : Option Span)
    → IsAccepted mem p
    → OnSome (IsAccepted mem) (set_muc p n s)
unfolding set_muc is_routable
set_muc-IsAccepted mem p n none r = ground arith
set_muc-IsAccepted mem p n (some s) r = tt

set_by_xmlns-IsAccepted :
    (mem : Bytes) (p : IncomingPacket) (n : Node) (a : Option XmlAttr)
    → IsAccepted mem p
    → OnSome (IsAccepted mem) (set_by_xmlns p n a)
unfolding set_by_xmlns
set_by_xmlns-IsAccepted mem p n none r = r
set_by_xmlns-IsAccepted mem p n (some a) r =
    elim (Bool-cases (bytes_eq (lit "http://jabber.org/protocol/muc#user") (slice p.mem a.value))) [
      | inl user ↦ rw user (set_muc_user-IsAccepted mem p n p.muc_user r)
      | inr e1 ↦
          rw e1
            (elim (Bool-cases
              (bytes_eq (lit "http://jabber.org/protocol/muc") (slice p.mem a.value))) [
                | inl muc ↦ rw muc (set_muc-IsAccepted mem p n p.muc r)
                | inr e2 ↦ rw e2 r
              ])
    ]

-- The function ends, and what it accepts is accepted.
abbrev pub Accepts : Bytes → Outcome (Option IncomingPacket) → Type 0
Accepts mem = Meets (OnSome (IsAccepted mem))

presence_node-Accepts :
    (mem : Bytes) (p : IncomingPacket) (n : Node)
    → IsAccepted mem p
    → Accepts mem (presence_node p n)
unfolding presence_node
presence_node-Accepts mem p n r = elim (Bool-cases (bytes_eq (lit "x") (slice p.mem n.node_name))) [
  | inl x ↦ rw x (
      bind-Meets (λ f. Unit {0}) (OnSome (IsAccepted mem))
        (xmlfsm_skipto_attr (lit "xmlns") p.mem n.node.start) _
        (xmlfsm_skipto_attr-Terminates (lit "xmlns") p.mem n.node.start)
        (λ found u. set_by_xmlns-IsAccepted mem p n found.0 r))
  | inr other ↦ rw other r
]

then-Accepts :
    (mem : Bytes) (k : IncomingPacket → Outcome (Option IncomingPacket))
    → ((p : IncomingPacket) → IsAccepted mem p → Accepts mem (k p))
    → (o : Option IncomingPacket) → OnSome (IsAccepted mem) o
    → Accepts mem (if_some k o)
then-Accepts mem k h none r = tt
then-Accepts mem k h (some p) r = h p r

presence_nodes-Accepts :
    (fuel : ℕ) (mem : Bytes) (b : Span) (p : IncomingPacket)
    → length mem < fuel + b.start
    → 0 < fuel
    → IsAccepted mem p
    → Accepts mem (presence_nodes fuel b p)
unfolding presence_nodes
presence_nodes-Accepts zero mem b p h pos r = absurd (omega arith)
presence_nodes-Accepts (suc fuel) mem b p h pos r =
    siblings-Meets (OnSome (IsAccepted mem)) p.mem b _ r (λ n further fits.
      bind-Meets (OnSome (IsAccepted mem)) (OnSome (IsAccepted mem)) (presence_node p n)
        (if_some (presence_nodes fuel n.buffer)) (presence_node-Accepts mem p n r)
        (then-Accepts mem (presence_nodes fuel n.buffer) (λ q s.
          presence_nodes-Accepts fuel mem n.buffer q (omega (arith, h, further))
            (omega (arith, h, further, fits, ap length r.attrs.block)) s)))

nodes_inside-Accepts :
    (mem : Bytes) (p : IncomingPacket) (inner : Option Span)
    → IsAccepted mem p
    → Accepts mem (nodes_inside p inner)
unfolding nodes_inside
nodes_inside-Accepts mem p none r = r
nodes_inside-Accepts mem p (some b) r =
    presence_nodes-Accepts (length p.mem + 1) mem b p (omega (arith, ap length r.attrs.block))
      (omega arith) r

parse_presence_inner-Accepts :
    (mem : Bytes) (p : IncomingPacket) → IsAccepted mem p → Accepts mem (parse_presence_inner p)
unfolding parse_presence_inner
parse_presence_inner-Accepts mem p = nodes_inside-Accepts mem p p.inner

check_inner-Accepts :
    (mem : Bytes) (p : IncomingPacket) → IsRead mem p → Accepts mem (check_inner p)
unfolding check_inner
check_inner-Accepts mem p r = elim (Bool-cases (is_routable p)) [
  | inl routable ↦ rw routable (elim (Bool-cases (p.name == stanza_presence)) [
    | inl presence ↦
        rw presence (parse_presence_inner-Accepts mem p (record { attrs = r; routable = routable }))
    | inr other ↦ rw other (record { attrs = r; routable = routable })
  ])
  | inr dropped ↦ rw dropped tt
]

-- What the loop does with the packet that an attribute leaves.
attr-Accepts :
    (mem : Bytes) (k : IncomingPacket → Outcome (Option IncomingPacket))
    → ((p : IncomingPacket) → IsRead mem p → Accepts mem (k p))
    → (o : Option IncomingPacket) → OnSome (IsRead mem) o
    → Accepts mem (elim o [ none ↦ ok none | some p ↦ k p ])
attr-Accepts mem k h none r = tt
attr-Accepts mem k h (some p) r = h p r

-- What the loop does with the state of `xmlfsm_next_attr`.
state-Accepts :
    (fuel start stop size : ℕ) (mem : Bytes) (p : IncomingPacket) (at : ℕ)
    → IsRead mem p
    → ((q : ℕ)
        → at < q
        → q ≤ length p.mem
        → (p' : IncomingPacket) → IsRead mem p'
        → Accepts mem (take_attrs fuel start stop size p' q))
    → (s : AttrState × ℕ) → Advanced p.mem at s
    → Accepts mem (elim s.0 [
      | parse_success attr ↦ elim (take_attr (header_to p start s.1) attr) [
        | none ↦ ok none
        | some p' ↦ take_attrs fuel start stop size p' s.1
      ]
      | node_empty ↦ check_inner p
      | node_noattr ↦
          check_inner (record p { inner = some (record { start = s.1; stop = stop - size - 3 }) })
    ])
state-Accepts fuel start stop size mem p at r again (parse_success attr, q) a =
    attr-Accepts mem (λ p'. take_attrs fuel start stop size p' q) (again q a.0 a.1)
      (take_attr (header_to p start q) attr)
      (take_attr-IsRead mem (header_to p start q) attr (record {
        block = r.block;
        known = r.known;
        typed = r.typed;
        sender = r.sender;
        target = r.target;
      }))
state-Accepts fuel start stop size mem p at r again (node_empty, q) a = check_inner-Accepts mem p r
state-Accepts fuel start stop size mem p at r again (node_noattr, q) a =
    check_inner-Accepts mem _ (record {
      block = r.block;
      known = r.known;
      typed = r.typed;
      sender = r.sender;
      target = r.target;
    })

take_attrs-Accepts :
    (fuel start stop size : ℕ) (mem : Bytes) (p : IncomingPacket) (at : ℕ)
    → length mem < fuel + at
    → 0 < fuel
    → IsRead mem p
    → Accepts mem (take_attrs fuel start stop size p at)
unfolding take_attrs
take_attrs-Accepts zero start stop size mem p at h pos r = absurd (omega arith)
take_attrs-Accepts (suc fuel) start stop size mem p at h pos r =
    bind-Meets (Advanced p.mem at) (OnSome (IsAccepted mem)) (xmlfsm_next_attr p.mem at) _
      (next_attr-Advanced p.mem at)
      (state-Accepts fuel start stop size mem p at r (λ q further fits p' r'.
        take_attrs-Accepts fuel start stop size mem p' q (omega (arith, h, further))
          (omega (arith, h, further, fits, ap length r.block)) r'))

name_by_word-is_name :
    (word : Bytes) (name : ℕ) → name_by_word word ≡ some name → is_name name ≡ true
unfolding name_by_word
name_by_word-is_name word name e = ground arith

named-Accepts :
    (mem : Bytes) (b word : Span) (at : ℕ) (o : Option ℕ)
    → name_by_word (slice mem word) ≡ o
    → Accepts mem (elim o [
      | none ↦ ok none
      | some name ↦
          take_attrs
            (length mem + 1)
            at
            b.stop
            (word.stop - word.start)
            (named_packet mem name at)
            at
    ])
named-Accepts mem b word at none e = tt
named-Accepts mem b word at (some name) e =
    take_attrs-Accepts (length mem + 1) at b.stop (word.stop - word.start) mem
      (named_packet mem name at) at (omega arith) (omega arith)
      (record {
        block = refl;
        known = name_by_word-is_name (slice mem word) name e;
        typed = refl;
        sender = refl;
        target = refl;
      })

pub packet_parse-Accepts : (mem : Bytes) (b : Span) → Accepts mem (packet_parse mem b)
unfolding packet_parse
packet_parse-Accepts mem b =
    bind-Meets (λ r. Unit {0}) (OnSome (IsAccepted mem)) (xmlfsm_node_name mem b) _
      (node_name-Terminates mem b)
      (λ r u. named-Accepts mem b r.0 r.1 (name_by_word (slice mem r.0)) refl)
