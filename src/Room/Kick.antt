-- ===== src/Room/Kick.antt =====
-- The branch of `room_route` of room.c for error stanzas.
pub mod Removal
use mukite.Common.{ℕ, Option, none, some, [], Bytes, lit, Outcome, ok, ◌>>=◌}
use mukite.Participant.{Participant, participants_find_by_jid}
use mukite.Packet.{IncomingPacket, packet_cleanup, cleanup_from_to, no_status}
use mukite.Room.{Room, Routed, role_none, room_broadcast_presence, room_leave, set_participant}

abbrev pub kick_status : Bytes
kick_status =
    lit "<status>This occupant is kicked from the room because he sent an error stanza</status>"

-- The occupant as the others are told of them.
abbrev pub kicked_sender : Participant → Participant
kicked_sender sender = record sender { presence = some kick_status; role = role_none }

-- The branch of `room_route` for a message or a presence of the type error.
unfoldable pub route_error : Room → IncomingPacket → Outcome Routed
unfolding room_broadcast_presence room_leave packet_cleanup
route_error room ingress =
    elim (participants_find_by_jid room.participants.entries ingress.real_from) [
      | none ↦ ok (record { room = room; sent = [] })
      | some sender ↦ do
        p ← packet_cleanup ingress cleanup_from_to
        ok (record {
          room =
              room_leave (set_participant room (record (kicked_sender sender) { presence = none }))
                sender.id;
          sent =
              room_broadcast_presence (set_participant room (kicked_sender sender))
                (kicked_sender sender) none no_status;
        })
    ]
