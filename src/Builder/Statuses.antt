-- ===== src/Builder/Statuses.antt =====
-- The status codes of a presence, from `room_broadcast_presence` of room.c to the text.
use mukite.Common.{◌≡◌, refl, false, lit, if◌then◌else◌, Bool-cases, inl, inr}
use mukite.Packet.{StatusCodes}
use mukite.RoomState.{Room}
use mukite.Room.{self_codes}
use mukite.Builder.{push, push_status, push_statuses}

-- Let a presence be sent to the occupant whom it is about, with status codes to which 100 does not
-- belong yet. It tells the occupant one status alone: 110, its own presence, in a semi-anonymous
-- room, and 100, the room is not anonymous, in any other. That the room was created, the nick was
-- changed, or the occupant was kicked or banned is in the codes, and is not printed.
pub push_statuses-self_codes :
    (room : Room) (codes : StatusCodes)
    → codes.non_anonymous ≡ false
    → push_statuses (self_codes room codes) ≡ (
        if room.flags.semi_anonymous
        then push (lit "<status code='110'/>")
        else push (lit "<status code='100'/>"))
unfolding push_statuses push_status self_codes
push_statuses-self_codes room codes e = elim (Bool-cases room.flags.semi_anonymous) [
  | inl semi ↦ rw (e, semi) refl
  | inr open_ ↦ rw (e, open_) refl
]
