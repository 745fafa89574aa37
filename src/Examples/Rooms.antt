-- ===== src/Examples/Rooms.antt =====
-- A room with Ann in it, and stanzas sent to it.
use mukite.Common.{refl, ◌∷◌, [], none, some, lit, Bytes, arith}
use mukite.Buffer.{BufferPtr}
use mukite.Utss.{dls_init}
use mukite.Jid.{Jid}
use mukite.History.{history_entry_init}
use mukite.Packet.{IncomingPacket, stanza_presence, stanza_message, stanza_message_groupchat}
use mukite.Room.{Room, muc_flags_default, role_participant}
use mukite.Room.Valid.{OccupantsValid}
use mukite.Examples.Data.{ann, bob, ann_in_room, bob_in_room, ann_owns, host}

abbrev pub room_node : BufferPtr
room_node = some (lit "den")

-- Ann is alone in her room.
abbrev pub den : Room
den = record {
  node = room_node;
  title = none;
  description = none;
  password = none;
  flags = muc_flags_default;
  default_role = role_participant;
  history = dls_init 20;
  subject_node = none;
  subject_nick = none;
  participants = record { entries = ann_in_room ∷ []; size = 1; max_size = 100 };
  affiliations = ann_owns;
  next_id = 2;
}

abbrev pub boss : Jid
boss = record { node = some (lit "boss"); host = some host; resource = some (lit "desk") }

abbrev pub stanza : Bytes
stanza = lit " from='b' to='r'/>"

-- A presence of the component's administrator, who asks for a nick.
abbrev pub boss_enters : IncomingPacket
boss_enters = record {
  mem = stanza;
  name = stanza_presence;
  type = 0;
  real_from = boss;
  proxy_to = record { node = room_node; host = some host; resource = some (lit "Boss") };
  header = some (record { start = 0; stop = 16 });
  inner = none;
  from_attr =
      some
        (record { name = record { start = 1; stop = 5 }; value = record { start = 7; stop = 8 } });
  to_attr = some (record {
    name = record { start = 10; stop = 12 };
    value = record { start = 14; stop = 15 };
  });
  id_attr = none;
  type_attr = none;
  muc = none;
  muc_user = none;
}

-- The same of Bob, who administers nothing.
abbrev pub bob_enters : IncomingPacket
bob_enters = record boss_enters {
  real_from = bob;
  proxy_to = record { node = room_node; host = some host; resource = some (lit "Bob") };
}

-- A message of Ann to the room.
abbrev pub ann_speaks : IncomingPacket
ann_speaks = record boss_enters {
  name = stanza_message;
  type = stanza_message_groupchat;
  real_from = ann;
  proxy_to = record { node = room_node; host = some host; resource = none };
}

-- A message of Ann to Bob.
abbrev pub ann_whispers : IncomingPacket
ann_whispers = record ann_speaks {
  proxy_to = record { node = room_node; host = some host; resource = some (lit "Bob") };
}

pub den-OccupantsValid : OccupantsValid den
den-OccupantsValid = record {
  ids = ground arith;
  nicks = λ n. ground arith;
  jids = λ j. ground arith;
  counted = refl;
}

-- The room once its history is full: one entry, and the limit 1.
abbrev pub full_den : Room
full_den = record den {
  history = record { entries = history_entry_init ∷ []; size = 1; max_size = 1 };
}

pub full_den-OccupantsValid : OccupantsValid full_den
full_den-OccupantsValid = record {
  ids = ground arith;
  nicks = λ n. ground arith;
  jids = λ j. ground arith;
  counted = refl;
}

-- Bob sits in the room too.
abbrev pub pair_den : Room
pair_den = record den {
  participants = record { entries = bob_in_room ∷ ann_in_room ∷ []; size = 2; max_size = 100 };
}
