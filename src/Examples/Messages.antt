-- ===== src/Examples/Messages.antt =====
-- `route_message` at the stanzas of the examples.
use mukite.Common.{Ensures, ◌≡◌, ◌⊎◌, refl, [], some, arith, ok, fault, Outcome}
use mukite.Buffer.{bpt_setter}
use mukite.Participant.{participants_find_by_jid, find_by_jid, update}
use mukite.History.{history_entries_push, set_inner, remove_extra, recycle}
use mukite.Packet.{packet_cleanup, blank_span, blank_type, blank_attr, fill}
use mukite.Room.{Routed}
use mukite.Room.Errors.{traffic_rate}
use mukite.Room.Message.{
  route_message, route_groupchat, with_subject, get_subject_node, broadcast_message, message_packet,
  bounce,
}
use mukite.Room.Valid.{OccupantsValid}
use mukite.Room.Message.Groupchat.{route_message-rate}
use mukite.Room.Message.Occupants.{route_message-OccupantsValid}
use mukite.Room.Message.Private.{Bounced, Delivered, route_message-private}
use mukite.Room.Message.History.{OnlyError, route_message-unfilled_history}
use mukite.Examples.Data.{ann, ann_in_room, cmp_runs}
use mukite.Examples.Rooms.{
  den, pair_den, full_den, full_den-OccupantsValid, ann_speaks, ann_whispers,
}

route_message-OccupantsValid_example :
    Ensures (λ l. OccupantsValid l.room) (route_message full_den ann_speaks 100 10)
route_message-OccupantsValid_example =
    route_message-OccupantsValid full_den ann_speaks 100 10 full_den-OccupantsValid

route_message-private_example :
    Ensures
      (λ l. Bounced pair_den l ⊎ Delivered pair_den ann_whispers l)
      (route_message pair_den ann_whispers 100 10)
route_message-private_example = route_message-private pair_den ann_whispers 100 10 refl

route_message-unfilled_history_example : Ensures OnlyError (route_message den ann_speaks 100 10)
route_message-unfilled_history_example =
    route_message-unfilled_history den ann_speaks 100 10 (omega arith) refl

abbrev value_or : Outcome Routed → Routed → Routed
value_or (ok l) other = l
value_or (fault f) other = other

-- What Ann's first message leaves.
abbrev spoken : Routed
spoken = value_or (route_message full_den ann_speaks 100 10) (record { room = full_den; sent = [] })

first_runs : route_message full_den ann_speaks 100 10 ≡ ok spoken
unfolding route_message participants_find_by_jid find_by_jid update cmp_runs route_groupchat
    with_subject get_subject_node broadcast_message message_packet history_entries_push set_inner
    remove_extra recycle bpt_setter packet_cleanup blank_span blank_type blank_attr fill
first_runs = refl

ann_found : participants_find_by_jid full_den.participants.entries ann ≡ some ann_in_room
unfolding participants_find_by_jid find_by_jid cmp_runs
ann_found = refl

-- Half a second later she speaks again.
route_message-rate_example :
    route_message spoken.room ann_speaks 105 10 ≡ bounce spoken.room ann_speaks traffic_rate
route_message-rate_example =
    route_message-rate full_den ann_speaks ann_speaks 100 105 10 ann_in_room full_den-OccupantsValid
      ann_found refl refl refl refl (omega arith) first_runs (omega arith)
