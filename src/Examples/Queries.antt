-- ===== src/Examples/Queries.antt =====
-- Queries to a room.
use mukite.Common.{
  ℕ, ◌≡◌, refl, inl, none, some, lit, Bytes, length, Option, Outcome, ok, fault, Ensures,
  Terminates, arith, bytes_eq,
}
use mukite.Jid.Compare.{NodeFilled}
use mukite.Packet.{IncomingPacket, stanza_iq, stanza_iq_set}
use mukite.Room.{Room, Routed}
use mukite.Room.Valid.{OccupantsValid, prepend-IsValid}
use mukite.Utss.{dls_prepend}
use mukite.Participant.{
  Participant, participants_find_by_jid, find_by_jid, participants_find_by_nick,
  participant_set_affected, update,
}
use mukite.Room.Query.Admin.{may_not_change, current, apply_item, admin_items}
use mukite.Room.Query.Items.{next_muc_admin_item, next_item}
use mukite.Room.Query.Affected.{announce}
use mukite.Room.Query.{route_iq, room_route}
use mukite.Room.Query.Occupants.{room_route-OccupantsValid}
use mukite.Room.Query.Ranks.{route_iq-by_rank}
use mukite.Room.Query.Termination.{room_route-Terminates}
use mukite.Examples.Data.{acl, ann, bob, bob_in_room, cmp_runs}
use mukite.Examples.Rooms.{den, den-OccupantsValid, ann_speaks}

abbrev kick_text : Bytes
kick_text =
    lit
      " from='b' to='r'><query xmlns='http://jabber.org/protocol/muc#admin'><item nick='Bob' role='none'/></query></iq>"

-- Ann puts Bob out of the room.
abbrev ann_kicks : IncomingPacket
ann_kicks = record ann_speaks {
  mem = kick_text;
  name = stanza_iq;
  type = stanza_iq_set;
  inner = some (record { start = 17; stop = 107 });
}

-- Bob is a mere participant.
abbrev bob_sits : Participant
bob_sits = record bob_in_room { affiliation = 2; role = 2 }

abbrev full_room : Room
full_room = record den { participants = dls_prepend den.participants bob_sits; next_id = 3 }

full_room-OccupantsValid : OccupantsValid full_room
unfolding bytes_eq cmp_runs
full_room-OccupantsValid =
    prepend-IsValid den.participants 2 bob_sits den-OccupantsValid refl refl refl

ann_filled : NodeFilled ann.node
ann_filled = λ e. cc

ann_filled_resource : NodeFilled ann.resource
ann_filled_resource = λ e. cc

room_route-OccupantsValid_example :
    Ensures (λ r. OccupantsValid r.room) (room_route full_room ann_kicks acl 10 0)
room_route-OccupantsValid_example =
    room_route-OccupantsValid full_room ann_kicks acl 10 0 full_room-OccupantsValid ann_filled
      ann_filled_resource (omega arith)

room_route-Terminates_example : Terminates (room_route full_room ann_kicks acl 10 0)
room_route-Terminates_example = room_route-Terminates full_room ann_kicks acl 10 0

-- Bob is a participant, and cannot do the same to Ann.
abbrev bob_kicks : IncomingPacket
bob_kicks = record ann_kicks { real_from = bob }

route_iq-by_rank_example : Ensures (λ r. r.room ≡ full_room) (route_iq full_room bob_kicks acl)
unfolding participants_find_by_jid find_by_jid cmp_runs
route_iq-by_rank_example = route_iq-by_rank full_room bob_kicks acl (inl refl)

-- Bob is told, and gone.
abbrev occupants : Outcome Routed → Option ℕ
occupants (ok r) = some (length r.room.participants.entries)
occupants (fault f) = none

bob_kicked : occupants (route_iq full_room ann_kicks acl) ≡ some 1
unfolding cmp_runs participants_find_by_jid find_by_jid participants_find_by_nick may_not_change
    current participant_set_affected next_muc_admin_item next_item apply_item admin_items announce
    route_iq update
bob_kicked = refl
