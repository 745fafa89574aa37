-- ===== src/Room/Presence/Privacy.antt =====
-- To whom `route_presence` shows the occupants' JIDs in a semi-anonymous room.
use mukite.Common.{
  ◌∙◌, ◌≡◌, refl, sym, ◌⊎◌, Bool-cases, true, false, inl, inr, List, [], ◌∷◌, ◌++◌, map, arith,
  ◌==◌,
}
use mukite.Buffer.{BufferPtr, bpt_null}
use mukite.Jid.{Jid, jid_init}
use mukite.Participant.{Participant, update}
use mukite.Participant.Nodes.{Holds}
use mukite.Packet.{BuilderPacket, SysData, StatusCodes, presence}
use mukite.Room.{
  Room, shown_jid, presence_packet, occupant_packet, occupants_but, room_presences_send,
  room_subject_send, role_moderator,
}

-- A moderator of the list has that JID.
abbrev pub ModeratorAt : List Participant → Jid → Type 0
ModeratorAt [] j = ⊥
ModeratorAt (p ∷ ps) j = ((p.jid ≡ j) × (p.role ≡ role_moderator)) ⊎ ModeratorAt ps j

-- What a packet tells of a JID, if it goes to `to`.
abbrev pub ShieldedData : (Jid → Type 0) → Jid → SysData → Type 0
ShieldedData may_see to (presence item codes resume) = (item.jid ≡ jid_init) ⊎ may_see to
ShieldedData may_see to _ = Unit {0}

-- The packet names no JID, or its receiver may see it.
abbrev pub Shielded : (Jid → Type 0) → BuilderPacket → Type 0
Shielded may_see p = ShieldedData may_see p.to p.sys_data

-- The same of every packet sent.
abbrev pub AllShielded : (Jid → Type 0) → List BuilderPacket → Type 0
AllShielded may_see [] = Unit {0}
AllShielded may_see (p ∷ ps) = Shielded may_see p × AllShielded may_see ps

shown_jid-cases :
    (room : Room) (s r : Participant)
    → room.flags.semi_anonymous ≡ true
    → (shown_jid room s r ≡ jid_init) ⊎ (r.role ≡ role_moderator)
unfolding shown_jid
shown_jid-cases room s r anonymous = elim (Bool-cases (r.role == role_moderator)) [
  | inl moderator ↦ inr (ground arith)
  | inr other ↦ inl (rw (other, anonymous) refl)
]

pub broadcast_to :
    (room : Room) (s : Participant) (nick : BufferPtr) (codes : StatusCodes)
    (may_see : Jid → Type 0) (ps : List Participant)
    → room.flags.semi_anonymous ≡ true
    → ((j : Jid) → ModeratorAt ps j → may_see j)
    → AllShielded may_see (map (presence_packet room s nick codes) ps)
unfolding presence_packet
broadcast_to room s nick codes may_see [] anonymous sees = tt
broadcast_to room s nick codes may_see (p ∷ ps) anonymous sees = (
  elim (shown_jid-cases room s p anonymous) [
    | inl hidden ↦ inl hidden
    | inr moderator ↦ inr (sees p.jid (inl (refl, moderator)))
  ],
  broadcast_to room s nick codes may_see ps anonymous (λ j m. sees j (inr m)),
)

pub append-AllShielded :
    (may_see : Jid → Type 0) (ps qs : List BuilderPacket)
    → AllShielded may_see ps
    → AllShielded may_see qs
    → AllShielded may_see (ps ++ qs)
append-AllShielded may_see [] qs h k = k
append-AllShielded may_see (p ∷ ps) qs (h, hs) k = (h, append-AllShielded may_see ps qs hs k)

occupants_to :
    (room : Room) (r : Participant) (may_see : Jid → Type 0) (ps : List Participant)
    → room.flags.semi_anonymous ≡ true
    → (r.role ≡ role_moderator → may_see r.jid)
    → AllShielded may_see (occupants_but room r ps)
unfolding occupants_but occupant_packet
occupants_to room r may_see [] anonymous sees = tt
occupants_to room r may_see (p ∷ ps) anonymous sees = elim (Bool-cases (p.id == r.id)) [
  | inl same ↦ rw same (occupants_to room r may_see ps anonymous sees)
  | inr other ↦ rw other (
    elim (shown_jid-cases room p r anonymous) [
      | inl hidden ↦ inl hidden
      | inr moderator ↦ inr (sees moderator)
    ],
    occupants_to room r may_see ps anonymous sees,
  )
]

pub presences_to :
    (room : Room) (r : Participant) (may_see : Jid → Type 0)
    → room.flags.semi_anonymous ≡ true
    → (r.role ≡ role_moderator → may_see r.jid)
    → AllShielded may_see (room_presences_send room r)
unfolding room_presences_send
presences_to room r may_see anonymous sees =
    occupants_to room r may_see room.participants.entries anonymous sees

pub subject_to :
    (room : Room) (r : Participant) (may_see : Jid → Type 0)
    → AllShielded may_see (room_subject_send room r)
unfolding room_subject_send
subject_to room r may_see = elim (Bool-cases (bpt_null room.subject_node)) [
  | inl empty ↦ rw empty tt
  | inr full ↦ rw full (tt, tt)
]

-- A write that makes nobody a moderator.
pub update-ModeratorAt :
    (p q : Participant) (ps : List Participant) (j : Jid)
    → Holds p ps
    → q.jid ≡ p.jid
    → (q.role ≡ role_moderator → p.role ≡ role_moderator)
    → ModeratorAt (update p.id (λ _. q) ps) j
    → ModeratorAt ps j
unfolding update
update-ModeratorAt p q [] j h jid role m = absurd h
update-ModeratorAt p q (x ∷ ps) j (inl e) jid role m =
    let same : (x.id == p.id) ≡ true = ground (arith, e) in
    elim (rw same at m) [
      | inl (at, rank) ↦ inl (rw e (sym jid ∙ at, role rank))
      | inr others ↦ inr others
    ]
update-ModeratorAt p q (x ∷ ps) j (inr (below, h)) jid role m =
    let other : (x.id == p.id) ≡ false = ground (arith, below) in
    elim (rw other at m) [
      | inl here ↦ inl here
      | inr others ↦ inr (update-ModeratorAt p q ps j h jid role others)
    ]
