-- ===== src/Room/Message.antt =====
-- `route_message` of room.c.
pub mod Cases
pub mod Groupchat
pub mod Occupants
pub mod Private
pub mod History
pub mod Ends
use mukite.Common.{
  ℕ, ◌+◌, ◌-◌, Bool, true, false, not, ◌&&◌, Option, none, some, List, [], ◌∷◌, map, Bytes, lit,
  ◌==◌, ltb, leb, if◌then◌else◌, length, Outcome, ok, ◌>>=◌,
}
use mukite.Buffer.{BufferPtr, bpt_null, buffer_ptr_cpy}
use mukite.Xmlfsm.{Span, xmlfsm_skipto_node}
use mukite.Participant.{Participant, participants_find_by_jid, participants_find_by_nick}
use mukite.History.{history_entries_push, set_inner}
use mukite.Packet.{
  IncomingPacket, BuilderPacket, empty_packet, bytes_at, cleanup_to_send, cleanup_from_to,
  worker_bounce, stanza_message,
}
use mukite.Room.{
  Room, Routed, role_visitor, role_participant, role_moderator, user_string_option_limit,
  set_participant,
}
use mukite.Room.Errors.{
  RoomError, error_definitions, external_message, no_visitors_public, traffic_rate, privilege_level,
  iq_bad, recipient_not_in_room, no_visitors_pm, no_pm,
}

-- `get_subject_node`: the first <subject> node. A stanza without inner nodes has none.
unfoldable pub get_subject_node : Bytes → Option Span → Outcome (Option Span)
unfolding xmlfsm_skipto_node
get_subject_node mem none = ok none
get_subject_node mem (some inner) = do
  found ← xmlfsm_skipto_node (lit "subject") mem inner
  elim found [ none ↦ ok none | some (s, behind) ↦ ok (some s) ]

-- `worker_bounce` with an error of the table, and nothing else sent.
unfoldable pub bounce : Room → IncomingPacket → RoomError → Outcome Routed
unfolding worker_bounce
bounce room ingress e = do
  p ← worker_bounce ingress (error_definitions e) room.node
  ok (record { room = room; sent = p ∷ [] })

-- `egress` of `route_message`, with the pointers into the stanza as they read when it is sent.
unfoldable pub message_packet : Room → IncomingPacket → Participant → Participant → BuilderPacket
message_packet room ingress sender receiver = record empty_packet {
  name = stanza_message;
  type = ingress.type;
  header = bytes_at ingress.mem ingress.header;
  from_node = room.node;
  from_nick = sender.nick;
  user_data = bytes_at ingress.mem ingress.inner;
  to = receiver.jid;
}

-- A groupchat message that passed the guards: it is put into the history and sent to everybody.
unfoldable pub broadcast_message : Room → IncomingPacket → Participant → Outcome Routed
unfolding message_packet
broadcast_message room ingress sender = do
  p ← cleanup_to_send ingress cleanup_from_to
  (pushed, entry) ← history_entries_push room.history
  history ← set_inner pushed entry (bytes_at p.mem p.inner)
  ok (record {
    room = record room { history = history };
    sent = map (message_packet room p sender) room.participants.entries;
  })

-- The room's subject becomes the node.
abbrev pub set_subject : Room → Participant → IncomingPacket → Span → Room
set_subject room sender ingress s = record room {
  subject_nick = buffer_ptr_cpy sender.nick;
  subject_node = buffer_ptr_cpy (bytes_at ingress.mem (some s));
}

-- The subject node of a groupchat message, once the sender's time is noted.
unfoldable pub with_subject : Room → IncomingPacket → Participant → Option Span → Outcome Routed
unfolding bounce broadcast_message buffer_ptr_cpy
with_subject room ingress sender none = broadcast_message room ingress sender
with_subject room ingress sender (some s) =
    if ltb sender.role role_moderator && not room.flags.change_subject
    then bounce room ingress privilege_level
    else if ltb user_string_option_limit (s.stop - s.start)
    then bounce room ingress iq_bad
    else broadcast_message (set_subject room sender ingress s) ingress sender

-- A message to the room. `ticks` is `timer_ticks()`; the difference of the times is signed, so it is
-- below the limit if `ticks < limit + last_message_time`.
unfoldable pub route_groupchat : Room → IncomingPacket → ℕ → ℕ → Participant → Outcome Routed
unfolding get_subject_node with_subject
route_groupchat room ingress ticks limit sender =
    if room.flags.moderated_room && ltb sender.role role_participant
    then bounce room ingress no_visitors_public
    else if ltb ticks (limit + sender.last_message_time)
    then bounce room ingress traffic_rate
    else do
      let timed : Participant = record sender { last_message_time = ticks }
      subject ← get_subject_node ingress.mem ingress.inner
      with_subject (set_participant room timed) ingress timed subject

-- A message to an occupant.
unfoldable pub route_private : Room → IncomingPacket → Participant → Outcome Routed
unfolding bounce message_packet
route_private room ingress sender =
    elim (participants_find_by_nick room.participants.entries ingress.proxy_to.resource) [
      | none ↦ bounce room ingress recipient_not_in_room
      | some receiver ↦
          if sender.role == role_visitor && not room.flags.visitors_pm
          then bounce room ingress no_visitors_pm
          else if not room.flags.allow_pm
          then bounce room ingress no_pm
          else do
            p ← cleanup_to_send ingress cleanup_from_to
            ok (record { room = room; sent = message_packet room p sender receiver ∷ [] })
    ]

-- `route_message`
unfoldable pub route_message : Room → IncomingPacket → ℕ → ℕ → Outcome Routed
route_message room ingress ticks limit =
    elim (participants_find_by_jid room.participants.entries ingress.real_from) [
      | none ↦ bounce room ingress external_message
      | some sender ↦
          if bpt_null ingress.proxy_to.resource
          then route_groupchat room ingress ticks limit sender
          else route_private room ingress sender
    ]
