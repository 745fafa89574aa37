-- ===== src/Room/Query/Affected.antt =====
-- The end of `route_iq`: the occupants that a query affected are told of, and put out of the room if
-- they have no role left. A reason is the text that the item had when it was read: what
-- `packet_cleanup` writes stands in the header.
use mukite.Common.{
  ℕ, true, false, ◌&&◌, Option, none, some, List, [], ◌∷◌, ◌++◌, ◌==◌, ltb, if◌then◌else◌, Outcome,
  ok, fault, wild_pointer, ◌>>=◌,
}
use mukite.Participant.{Participant}
use mukite.Affiliation.{affil_outcast, affil_member}
use mukite.Packet.{StatusCodes, no_status}
use mukite.Room.{
  Room, RoomFlags, Routed, role_none, room_broadcast_presence, room_leave, set_participant,
}

-- The participant at an address.
unfoldable pub at_address : ℕ → List Participant → Option Participant
at_address id [] = none
at_address id (p ∷ ps) = if p.id == id then some p else at_address id ps

-- The role and the status codes that the occupant is shown with.
unfoldable pub verdict : RoomFlags → Participant → Participant × StatusCodes
verdict flags p =
    if flags.destroyed
    then (record p { role = role_none }, no_status)
    else if p.affiliation == affil_outcast
    then (record p { role = role_none }, record no_status { banned = true })
    else if flags.members_only && ltb p.affiliation affil_member
    then (record p { role = role_none }, record no_status { nonmember_removed = true })
    else if p.role == role_none
    then (p, record no_status { kicked = true })
    else (p, no_status)

-- The occupant as the others are told of them: without a role there is no presence.
abbrev pub shown_last : Participant → Participant
shown_last p =
    if p.role == role_none
    then record p { included = false; presence = none }
    else record p { included = false }

-- The body of the loop.
unfoldable pub announce_one : Room → Participant → Routed
unfolding verdict room_broadcast_presence room_leave
announce_one room p =
    let (decided, codes) = verdict room.flags p in
    let shown = shown_last decided in
    let cleared = set_participant room (record shown { reason_node = none }) in
    record {
      room = if shown.role == role_none then room_leave cleared p.id else cleared;
      sent = room_broadcast_presence (set_participant room shown) shown none codes;
    }

-- The loop over the list of the affected.
unfoldable pub announce : List ℕ → Room → Outcome Routed
unfolding at_address announce_one
announce [] room = ok (record { room = room; sent = [] })
announce (id ∷ ids) room = elim (at_address id room.participants.entries) [
  | none ↦ fault wild_pointer
  | some p ↦ do
    let now = announce_one room p
    later ← announce ids now.room
    ok (record { room = later.room; sent = now.sent ++ later.sent })
]
