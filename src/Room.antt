-- ===== src/Room.antt =====
-- room.h and the part of room.c that keeps a room: its state, who joins and leaves, and the packets
-- that tell its occupants.
pub mod Errors
pub mod Valid
pub mod Message
pub mod Presence
pub mod Config
pub mod Kick
pub mod Query
pub mod Storage
pub use mukite.RoomState.{
  role_none, role_visitor, role_participant, role_moderator, user_string_option_limit,
  participants_limit, reasonable_raw_limit, RoomFlags, muc_flags_default, ParticipantsList, Room,
  no_affiliations,
}
use mukite.Common.{
  ℕ, zero, suc, ◌+◌, ◌-◌, Bool, true, false, not, ◌&&◌, ◌||◌, Option, none, some, List, [], ◌∷◌,
  ◌++◌, map, Bytes, ◌==◌, leb, if◌then◌else◌,
}
use mukite.Buffer.{BufferPtr, bpt_null, buffer_ptr_cpy}
use mukite.Utss.{Dls, dls_init, dls_prepend, dls_delete}
use mukite.Jid.{Jid, jid_init}
use mukite.Participant.{Participant, participant_init, participant_set_nick, update, position}
use mukite.Affiliation.{Affiliations, affil_member, affil_admin, affil_owner}
use mukite.History.{HistoryEntriesList}
use mukite.Packet.{
  BuilderPacket, MucItem, StatusCodes, SysData, presence, empty_packet, no_status, stanza_message,
  stanza_message_groupchat, stanza_presence, stanza_presence_unavailable,
}

-- `room_init`
unfoldable pub room_init : BufferPtr → Room
unfolding buffer_ptr_cpy
room_init node = record {
  node = buffer_ptr_cpy node;
  title = none;
  description = none;
  password = none;
  flags = muc_flags_default;
  default_role = role_participant;
  participants = dls_init 100;
  affiliations = no_affiliations;
  history = dls_init 20;
  subject_node = none;
  subject_nick = none;
  next_id = 0;
}

-- `room_role_for_affiliation`
unfoldable pub room_role_for_affiliation : Room → ℕ → ℕ
room_role_for_affiliation room a =
    if a == affil_member
    then role_participant
    else if a == affil_admin || a == affil_owner
    then role_moderator
    else room.default_role

-- `room_join`: the room, and the participant, which stands at the head of the list.
unfoldable pub room_join : Room → Jid → BufferPtr → ℕ → Room × Participant
unfolding participant_init participant_set_nick room_role_for_affiliation
room_join room j nick affiliation =
    let p : Participant = record (participant_set_nick (participant_init room.next_id j) nick).0 {
      affiliation = affiliation;
      role = room_role_for_affiliation room affiliation;
    } in
    (record room { participants = dls_prepend room.participants p; next_id = room.next_id + 1 }, p)

-- `room_leave` of the participant at an address.
unfoldable pub room_leave : Room → ℕ → Room
unfolding position
room_leave room id =
    let ps = dls_delete room.participants (position id room.participants.entries) in
    record room {
      participants = ps;
      flags =
          if not room.flags.persistent_room && ps.size == 0
          then record room.flags { destroyed = true }
          else room.flags;
    }

-- A write through a pointer to a participant of the room.
abbrev pub set_participant : Room → Participant → Room
set_participant room p = record room {
  participants = record room.participants {
    entries = update p.id (λ _. p) room.participants.entries;
  };
}

-- `room_config_status_codes | STATUS_SELF_PRESENCE | codes`
unfoldable pub self_codes : Room → StatusCodes → StatusCodes
self_codes room codes = record codes {
  non_anonymous = codes.non_anonymous || not room.flags.semi_anonymous;
  self_presence = true;
  logging_enabled = codes.logging_enabled || room.flags.enable_logging;
  room_created = codes.room_created || room.flags.just_created;
}

-- The real JID of an occupant, as another occupant is shown it.
unfoldable pub shown_jid : Room → Participant → Participant → Jid
shown_jid room sender receiver =
    if receiver.role == role_moderator || not room.flags.semi_anonymous
    then sender.jid
    else jid_init

-- The packet of `room_broadcast_presence` for one receiver.
unfoldable pub presence_packet :
    Room → Participant → BufferPtr → StatusCodes → Participant → BuilderPacket
unfolding self_codes shown_jid
presence_packet room sender new_nick codes receiver = record empty_packet {
  name = stanza_presence;
  type =
      if sender.role == role_none || codes.nickname_changed then stanza_presence_unavailable else 0;
  user_data = sender.presence;
  from_nick = sender.nick;
  from_node = room.node;
  to = receiver.jid;
  sys_data =
      presence
        (record {
          affiliation = sender.affiliation;
          role = sender.role;
          jid = shown_jid room sender receiver;
          nick = new_nick;
          reason_node = sender.reason_node;
        })
        (if receiver.id == sender.id then self_codes room codes else codes) none;
}

-- `room_broadcast_presence`: the packets sent, in the order of the list.
unfoldable pub room_broadcast_presence :
    Room → Participant → BufferPtr → StatusCodes → List BuilderPacket
unfolding presence_packet
room_broadcast_presence room sender new_nick codes =
    map (presence_packet room sender new_nick codes) room.participants.entries

-- The packet of `room_presences_send` about one occupant.
unfoldable pub occupant_packet : Room → Participant → Participant → BuilderPacket
unfolding shown_jid
occupant_packet room receiver sender = record empty_packet {
  name = stanza_presence;
  from_nick = sender.nick;
  from_node = room.node;
  to = receiver.jid;
  user_data = sender.presence;
  sys_data =
      presence
        (record {
          affiliation = sender.affiliation;
          role = sender.role;
          jid = shown_jid room sender receiver;
          nick = none;
          reason_node = none;
        })
        no_status none;
}

-- The loop of `room_presences_send` over the occupants but the receiver.
unfoldable pub occupants_but : Room → Participant → List Participant → List BuilderPacket
unfolding occupant_packet
occupants_but room receiver [] = []
occupants_but room receiver (p ∷ ps) =
    let rest = occupants_but room receiver ps in
    if p.id == receiver.id then rest else occupant_packet room receiver p ∷ rest

-- `room_presences_send`
unfoldable pub room_presences_send : Room → Participant → List BuilderPacket
unfolding occupants_but
room_presences_send room receiver = occupants_but room receiver room.participants.entries

-- `room_subject_send`
unfoldable pub room_subject_send : Room → Participant → List BuilderPacket
room_subject_send room receiver =
    if bpt_null room.subject_node
    then []
    else record empty_packet {
      name = stanza_message;
      type = stanza_message_groupchat;
      to = receiver.jid;
      from_nick = room.subject_nick;
      from_node = room.node;
      user_data = room.subject_node;
    }
      ∷ []

-- What routing a stanza leaves: the room, and the packets sent, in order.
pub record Routed : Type 0 where
  pub room : Room
  pub sent : List BuilderPacket
