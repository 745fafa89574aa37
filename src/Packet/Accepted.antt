-- ===== src/Packet/Accepted.antt =====
-- What `packet_parse` accepts.
use mukite.Common.{
  ℕ, ◌≡◌, refl, inl, inr, Bool, true, false, not, ◌&&◌, ◌||◌, Option, none, some, Bytes, lit, ◌==◌,
  Bool-cases, arith, bytes_eq,
}
use mukite.Buffer.{BufferPtr}
use mukite.Jid.{Jid, jid_init, jid_struct}
use mukite.Xmlfsm.{XmlAttr, slice}
use mukite.Packet.{IncomingPacket, stanza_iq, stanza_message, stanza_presence, stanza_error}
use mukite.Packet.Parse.{type_by_value, set_type, set_from, set_to, take_attr}

-- The identifier was never set, or is the one that the attribute's value spells, and well formed.
abbrev pub IsSpelled : Bytes → Jid → Option XmlAttr → Type 0
IsSpelled mem j none = j ≡ jid_init
IsSpelled mem j (some a) = jid_struct (some (slice mem a.value)) ≡ (j, true)

-- The types of a stanza; 0 stands where no type is given.
abbrev pub has_type : ℕ → ℕ → Bool
has_type name type =
    type == 0
    || (type == stanza_error
        || (type == 1
            || ((type == 2 && not (name == stanza_presence)) || (type == 3 && name == stanza_iq))))

abbrev pub is_name : ℕ → Bool
is_name name = name == stanza_message || (name == stanza_presence || name == stanza_iq)

-- What holds of a packet while its attributes are read.
pub record IsRead (mem : Bytes) (p : IncomingPacket) : Type 0 where
  pub block : p.mem ≡ mem
  pub known : is_name p.name ≡ true
  pub typed : has_type p.name p.type ≡ true
  pub sender : IsSpelled p.mem p.real_from p.from_attr
  pub target : IsSpelled p.mem p.proxy_to p.to_attr

abbrev pub OnSome : (IncomingPacket → Type 0) → Option IncomingPacket → Type 0
OnSome P none = Unit {0}
OnSome P (some p) = P p

type_by_value-has_type :
    (name : ℕ) (value : BufferPtr) (type : ℕ)
    → is_name name ≡ true
    → type_by_value name value ≡ some type
    → has_type name type ≡ true
unfolding type_by_value
type_by_value-has_type name value type h e = ground arith

set_type-IsRead :
    (mem : Bytes) (p : IncomingPacket) (a : XmlAttr) (value : BufferPtr)
    → IsRead mem p
    → (t : Option ℕ) → type_by_value p.name value ≡ t
    → OnSome (IsRead mem) (set_type p a t)
unfolding set_type
set_type-IsRead mem p a value r none e = tt
set_type-IsRead mem p a value r (some t) e = record {
  block = r.block;
  known = r.known;
  typed = type_by_value-has_type p.name value t r.known e;
  sender = r.sender;
  target = r.target;
}

set_from-IsRead :
    (mem : Bytes) (p : IncomingPacket) (a : XmlAttr)
    → IsRead mem p
    → (j : Jid × Bool) → jid_struct (some (slice p.mem a.value)) ≡ j
    → OnSome (IsRead mem) (set_from p a j)
unfolding set_from
set_from-IsRead mem p a r (j, false) e = tt
set_from-IsRead mem p a r (j, true) e = record {
  block = r.block;
  known = r.known;
  typed = r.typed;
  sender = e;
  target = r.target;
}

set_to-IsRead :
    (mem : Bytes) (p : IncomingPacket) (a : XmlAttr)
    → IsRead mem p
    → (j : Jid × Bool) → jid_struct (some (slice p.mem a.value)) ≡ j
    → OnSome (IsRead mem) (set_to p a j)
unfolding set_to
set_to-IsRead mem p a r (j, false) e = tt
set_to-IsRead mem p a r (j, true) e = record {
  block = r.block;
  known = r.known;
  typed = r.typed;
  sender = r.sender;
  target = e;
}

pub take_attr-IsRead :
    (mem : Bytes) (p : IncomingPacket) (a : XmlAttr)
    → IsRead mem p
    → OnSome (IsRead mem) (take_attr p a)
unfolding take_attr
take_attr-IsRead mem p a r = elim (Bool-cases (bytes_eq (lit "from") (slice p.mem a.name))) [
  | inl from ↦ rw from (set_from-IsRead mem p a r (jid_struct (some (slice p.mem a.value))) refl)
  | inr e1 ↦ rw e1 (elim (Bool-cases (bytes_eq (lit "to") (slice p.mem a.name))) [
    | inl to ↦ rw to (set_to-IsRead mem p a r (jid_struct (some (slice p.mem a.value))) refl)
    | inr e2 ↦ rw e2 (elim (Bool-cases (bytes_eq (lit "type") (slice p.mem a.name))) [
      | inl type ↦ rw type (set_type-IsRead mem p a (some (slice p.mem a.value)) r _ refl)
      | inr e3 ↦ rw e3 (elim (Bool-cases (bytes_eq (lit "id") (slice p.mem a.name))) [
        | inl id ↦ rw id (record {
          block = r.block;
          known = r.known;
          typed = r.typed;
          sender = r.sender;
          target = r.target;
        })
        | inr e4 ↦ rw e4 r
      ])
    ])
  ])
]
