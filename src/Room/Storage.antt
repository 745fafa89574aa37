-- ===== src/Room/Storage.antt =====
-- jid_serialize and jid_deserialize (jid.c), the same of participants, affiliations and history entries,
-- and of a room (room.c).
pub mod Entries
pub mod Restored
pub mod Lost
use mukite.Common.{
  ℕ, zero, suc, ◌+◌, ◌*◌, ◌/◌, ◌%◌, Bool, true, false, Option, none, some, List, [], ◌∷◌, ◌++◌,
  Bytes, ◌==◌, leb, if◌then◌else◌,
}
use mukite.Buffer.{BufferPtr}
use mukite.Utss.{Dls, dls_init}
use mukite.Jid.{Jid, jid_init, jid_str, jid_struct, max_jid_part_size, max_jid_size}
use mukite.Participant.{Participant, max_presence_size}
use mukite.Affiliation.{Affiliation, AffiliationsList, Affiliations, max_affiliation_reason_size}
use mukite.History.{
  HistoryEntry, HistoryEntriesList, max_history_header_size, max_history_inner_size,
}
use mukite.RoomState.{RoomFlags, ParticipantsList, Room, user_string_option_limit}
use mukite.Serializer.{
  Reader, pure, fail, and_then, ◌>>=◌, word_bytes, read_word, int_bytes, read_int, buffer_serialize,
  buffer_deserialize, dls_serialize, dls_deserialize,
}

-- `jid_serialize`
unfoldable pub jid_serialize : Jid → Bytes
jid_serialize j = buffer_serialize (some (jid_str j))

abbrev pub checked : Jid × Bool → Reader Jid
checked (j, true) = pure j
checked (j, false) = fail

-- `jid_deserialize`
unfoldable pub jid_deserialize : Reader Jid
jid_deserialize = do s ← buffer_deserialize max_jid_size; checked (jid_struct s)

-- `participant_serialize`
unfoldable pub participant_serialize : Participant → Bytes
participant_serialize p =
    jid_serialize p.jid
    ++ (buffer_serialize p.nick
        ++ (buffer_serialize p.presence ++ (int_bytes p.affiliation ++ int_bytes p.role)))

-- `participant_deserialize` into a block of zeros at an address.
unfoldable pub participant_deserialize : ℕ → Reader Participant
participant_deserialize id = do
  jid ← jid_deserialize
  nick ← buffer_deserialize max_jid_part_size
  presence ← buffer_deserialize max_presence_size
  affiliation ← read_int
  role ← read_int
  pure (record {
    id = id;
    jid = jid;
    nick = nick;
    affiliation = affiliation;
    role = role;
    presence = presence;
    last_message_time = 0;
    last_presence_time = 0;
    included = false;
    reason_node = none;
  })

-- `affiliation_serialize`
unfoldable pub affiliation_serialize : Affiliation → Bytes
affiliation_serialize a = jid_serialize a.jid ++ buffer_serialize a.reason_node

-- `affiliation_deserialize`
unfoldable pub affiliation_deserialize : ℕ → Reader Affiliation
affiliation_deserialize id = do
  jid ← jid_deserialize
  reason ← buffer_deserialize max_affiliation_reason_size
  pure (record { jid = jid; reason_node = reason })

-- `history_entry_serialize`; `delay` is a `time_t` of eight bytes.
unfoldable pub history_entry_serialize : HistoryEntry → Bytes
history_entry_serialize e =
    buffer_serialize e.nick
    ++ (buffer_serialize e.header ++ (buffer_serialize e.inner ++ word_bytes 8 e.delay))

-- `history_entry_deserialize`
unfoldable pub history_entry_deserialize : ℕ → Reader HistoryEntry
history_entry_deserialize id = do
  nick ← buffer_deserialize max_jid_part_size
  header ← buffer_deserialize max_history_header_size
  inner ← buffer_deserialize max_history_inner_size
  delay ← read_word 8
  pure (record { nick = nick; header = header; inner = inner; delay = delay })

-- `participants_serialize`, `affiliations_serialize`, `history_entries_serialize`, and the readers, of
-- a list with this limit that holds nothing yet.
unfoldable pub participants_serialize : ParticipantsList → Bytes
participants_serialize l = dls_serialize participant_serialize l

unfoldable pub participants_deserialize : ParticipantsList → Reader ParticipantsList
participants_deserialize l = dls_deserialize participant_deserialize l

unfoldable pub affiliations_serialize : AffiliationsList → Bytes
affiliations_serialize l = dls_serialize affiliation_serialize l

unfoldable pub affiliations_deserialize : AffiliationsList → Reader AffiliationsList
affiliations_deserialize l = dls_deserialize affiliation_deserialize l

unfoldable pub history_entries_serialize : HistoryEntriesList → Bytes
history_entries_serialize l = dls_serialize history_entry_serialize l

unfoldable pub history_entries_deserialize : HistoryEntriesList → Reader HistoryEntriesList
history_entries_deserialize l = dls_deserialize history_entry_deserialize l

-- The flags as bits of an `int`, the lowest first. No code sets a bit above the seventeen.
abbrev pub flag_bits : RoomFlags → List Bool
flag_bits f =
    f.allow_pm ∷ f.change_subject ∷ f.enable_logging ∷ f.members_only ∷ f.moderated_room
    ∷ f.password_protected_room ∷ f.persistent_room ∷ f.public_room ∷ f.public_participants
    ∷ f.semi_anonymous ∷ f.iq_proxy ∷ f.invites ∷ f.visitors_pm ∷ f.visitor_presence
    ∷ f.just_created ∷ f.destroyed ∷ f.mewcat ∷ []

abbrev pub bits_word : List Bool → ℕ
bits_word [] = 0
bits_word (b ∷ bs) = (if b then 1 else 0) + 2 * bits_word bs

-- So many of the lowest bits.
abbrev pub low_bits : ℕ → ℕ → List Bool
low_bits zero v = []
low_bits (suc n) v = (v % 2 == 1) ∷ low_bits n (v / 2)

abbrev bit : ℕ → List Bool → Bool
bit n [] = false
bit zero (b ∷ bs) = b
bit (suc n) (b ∷ bs) = bit n bs

abbrev pub flags_of : List Bool → RoomFlags
flags_of bs = record {
  allow_pm = bit 0 bs;
  change_subject = bit 1 bs;
  enable_logging = bit 2 bs;
  members_only = bit 3 bs;
  moderated_room = bit 4 bs;
  password_protected_room = bit 5 bs;
  persistent_room = bit 6 bs;
  public_room = bit 7 bs;
  public_participants = bit 8 bs;
  semi_anonymous = bit 9 bs;
  iq_proxy = bit 10 bs;
  invites = bit 11 bs;
  visitors_pm = bit 12 bs;
  visitor_presence = bit 13 bs;
  just_created = bit 14 bs;
  destroyed = bit 15 bs;
  mewcat = bit 16 bs;
}

-- `room_serialize`; `_unused` is twelve numbers that are zero.
unfoldable pub room_serialize : Room → Bytes
room_serialize room =
    buffer_serialize room.node
    ++ (buffer_serialize room.title
        ++ (buffer_serialize room.description
            ++ (buffer_serialize room.password
                ++ (buffer_serialize room.subject_node
                    ++ (buffer_serialize room.subject_nick
                        ++ (int_bytes (bits_word (flag_bits room.flags))
                            ++ (int_bytes room.default_role
                                ++ (int_bytes room.participants.max_size
                                    ++ (int_bytes room.history.max_size
                                        ++ (word_bytes 48 0
                                            ++ (history_entries_serialize room.history
                                                ++ (participants_serialize room.participants
                                                    ++ (affiliations_serialize
                                                          room.affiliations.owners
                                                        ++ (affiliations_serialize
                                                            room.affiliations.admins
                                                            ++ (affiliations_serialize
                                                            room.affiliations.members
                                                            ++ affiliations_serialize
                                                            room.affiliations.outcasts)))))))))))))))

-- `room_deserialize` into a block of zeros. From 2 ^ 31 on a limit is negative, and as good as zero.
-- What is read into `_unused` nothing reads.
abbrev pub limit_of : ℕ → ℕ
limit_of v = if leb 2147483648 v then 0 else v

unfoldable pub room_deserialize : Reader Room
room_deserialize = do
  node ← buffer_deserialize max_jid_part_size
  title ← buffer_deserialize user_string_option_limit
  description ← buffer_deserialize user_string_option_limit
  password ← buffer_deserialize user_string_option_limit
  subject_node ← buffer_deserialize user_string_option_limit
  subject_nick ← buffer_deserialize user_string_option_limit
  flags ← read_int
  default_role ← read_int
  participants_max ← read_int
  history_max ← read_int
  unused ← read_word 48
  history ← history_entries_deserialize (dls_init (limit_of history_max))
  participants ← participants_deserialize (dls_init (limit_of participants_max))
  owners ← affiliations_deserialize (dls_init 10240)
  admins ← affiliations_deserialize (dls_init 10240)
  members ← affiliations_deserialize (dls_init 10240)
  outcasts ← affiliations_deserialize (dls_init 10240)
  pure (record {
    node = node;
    title = title;
    description = description;
    password = password;
    flags = flags_of (low_bits 17 flags);
    default_role = default_role;
    participants = participants;
    affiliations = record {
      outcasts = outcasts;
      nones = dls_init 10240;
      members = members;
      admins = admins;
      owners = owners;
    };
    history = history;
    subject_node = subject_node;
    subject_nick = subject_nick;
    next_id = participants.max_size + 1;
  })
