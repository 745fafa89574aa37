-- ===== src/Room/Message/Occupants.antt =====
-- What `route_message` leaves of the occupants.
use mukite.Room.Message.{
  with_subject, get_subject_node, bounce, route_groupchat, route_private, route_message,
}
use mukite.Room.{Routed, Room, set_participant}
use mukite.Room.Errors.{
  RoomError, traffic_rate, no_visitors_public, external_message, recipient_not_in_room, no_pm,
  no_visitors_pm,
}
use mukite.Room.Message.Cases.{timed, groupchat-by, private-by, message-by}
use mukite.Room.Message.Groupchat.{
  sent-SameOccupants, SameOccupants, bounce-SameOccupants, Keeps, unchanged,
}
use mukite.Common.{◌>>=◌, Ensures, bind-Ensures, Ensures-map, ℕ, refl, inl, Outcome}
use mukite.Participant.{Participant, participants_find_by_jid, find_by_jid, find_mode}
use mukite.Participant.Nodes.{Holds, find_by_jid-Holds}
use mukite.Packet.{IncomingPacket, cleanup_to_send, cleanup_from_to}
use mukite.Room.Valid.{OccupantsValid, set_participant-IsValid}

private-SameOccupants :
    (room : Room) (ingress : IncomingPacket) (p : Participant)
    → Keeps room (route_private room ingress p)
private-SameOccupants room ingress p =
    private-by (Keeps room) room ingress p (bounce-SameOccupants room ingress recipient_not_in_room)
      (bounce-SameOccupants room ingress no_visitors_pm) (bounce-SameOccupants room ingress no_pm)
      (λ r e. bind-Ensures _ (cleanup_to_send ingress cleanup_from_to) _ (λ q. unchanged room))

same-OccupantsValid :
    (before after : Room)
    → OccupantsValid before
    → SameOccupants before after
    → OccupantsValid after
same-OccupantsValid before after v s = rw (s.participants, s.next_id) v

abbrev KeepsValid : Outcome Routed → Type 0
KeepsValid = Ensures (λ l. OccupantsValid l.room)

keep-Valid : (room : Room) (m : Outcome Routed) → OccupantsValid room → Keeps room m → KeepsValid m
keep-Valid room m v = Ensures-map _ _ m (λ l. same-OccupantsValid room l.room v)

bounce-Valid :
    (room : Room) (ingress : IncomingPacket) (e : RoomError)
    → OccupantsValid room
    → KeepsValid (bounce room ingress e)
bounce-Valid room ingress e v =
    keep-Valid room (bounce room ingress e) v (bounce-SameOccupants room ingress e)

groupchat-Valid :
    (room : Room) (ingress : IncomingPacket) (ticks limit : ℕ) (p : Participant)
    → OccupantsValid room
    → Holds p room.participants.entries
    → KeepsValid (route_groupchat room ingress ticks limit p)
groupchat-Valid room ingress ticks limit p v h =
    let written = set_participant room (timed p ticks) in
    let valid = set_participant-IsValid room p (timed p ticks) v h refl refl (inl refl) in
    groupchat-by KeepsValid room ingress ticks limit p
      (bounce-Valid room ingress no_visitors_public v) (bounce-Valid room ingress traffic_rate v)
      (keep-Valid written
        (get_subject_node ingress.mem ingress.inner
          >>= with_subject written ingress (timed p ticks))
        valid (sent-SameOccupants written ingress (timed p ticks)))

-- Every message that does not fault, to the room or to an occupant, keeps the occupants' invariant.
pub route_message-OccupantsValid :
    (room : Room) (ingress : IncomingPacket) (ticks limit : ℕ)
    → OccupantsValid room
    → Ensures (λ l. OccupantsValid l.room) (route_message room ingress ticks limit)
unfolding find_by_jid participants_find_by_jid
route_message-OccupantsValid room ingress ticks limit v =
    message-by KeepsValid room ingress ticks limit (bounce-Valid room ingress external_message v)
      (λ p e to_room. groupchat-Valid room ingress ticks limit p v (
        find_by_jid-Holds room.next_id room.participants.entries ingress.real_from
          (find_mode ingress.real_from) v.ids e))
      (λ p e to_nick.
        keep-Valid room (route_private room ingress p) v (private-SameOccupants room ingress p))
