-- ===== src/Room/Storage/Restored.antt =====
-- What is read back of a room that was saved.
use mukite.Common.{
  ℕ, zero, suc, ◌+◌, ◌*◌, ◌<◌, ◌≤◌, ◌≡◌, refl, ap, ap₂, ◌∙◌, Bool, false, some, List, [], ◌∷◌, ◌++◌,
  Bytes, leb, length, length-take, append_assoc, arith,
}
use mukite.Buffer.{bpt_size}
use mukite.Utss.{Dls, dls_init}
use mukite.Jid.{max_jid_part_size}
use mukite.Participant.{Participant}
use mukite.History.{HistoryEntriesList}
use mukite.Affiliation.{AffiliationsList}
use mukite.RoomState.{RoomFlags, Room, user_string_option_limit}
use mukite.Serializer.Reads.{Reads, word-Reads, stored, buffer-Reads}
use mukite.Serializer.Lists.{All, written, refilled, dls-Reads}
use mukite.Room.Storage.{
  participant_serialize, participant_deserialize, participants_serialize, participants_deserialize,
  affiliation_serialize, affiliation_deserialize, affiliations_serialize, affiliations_deserialize,
  history_entry_serialize, history_entry_deserialize, history_entries_serialize,
  history_entries_deserialize, flag_bits, bits_word, low_bits, flags_of, room_serialize,
  room_deserialize,
}
use mukite.Room.Storage.Entries.{
  ParticipantReadable, participant_restored, participant-Reads, AffiliationReadable,
  affiliation_restored, affiliation-Reads, HistoryEntryReadable, history_entry_restored,
  history_entry-Reads,
}

low_bits-bits_word : (bs : List Bool) → low_bits (length bs) (bits_word bs) ≡ bs
low_bits-bits_word [] = refl
low_bits-bits_word (b ∷ bs) =
    ap₂ (λ c cs. c ∷ cs) (ground arith)
      (ap (λ v. low_bits (length bs) v) (ground arith) ∙ low_bits-bits_word bs)

abbrev two_to : ℕ → ℕ
two_to zero = 1
two_to (suc n) = 2 * two_to n

bits_word-bound : (bs : List Bool) → bits_word bs < two_to (length bs)
bits_word-bound [] = omega arith
bits_word-bound (b ∷ bs) = ground (arith, bits_word-bound bs)

flags_of-flag_bits : (f : RoomFlags) → flags_of (low_bits 17 (bits_word (flag_bits f))) ≡ f
flags_of-flag_bits f = ap flags_of (low_bits-bits_word (flag_bits f))

-- A list of affiliations that a room file can hold.
abbrev pub AffiliationsReadable : AffiliationsList → Type 0
AffiliationsReadable l = (length (written l) ≤ 10240) × All AffiliationReadable (written l)

affiliations-Reads :
    (l : AffiliationsList)
    → AffiliationsReadable l
    → Reads
        (affiliations_deserialize (dls_init 10240))
        (affiliations_serialize l)
        (refilled affiliation_restored 10240 (written l))
unfolding affiliations_deserialize affiliations_serialize
affiliations-Reads l v =
    dls-Reads AffiliationReadable affiliation_serialize affiliation_deserialize affiliation_restored
      affiliation-Reads 10240 l v.0 v.1

participants-Reads :
    (l : Dls Participant)
    → All ParticipantReadable (written l)
    → Reads
        (participants_deserialize (dls_init l.max_size))
        (participants_serialize l)
        (refilled participant_restored l.max_size (written l))
unfolding participants_deserialize participants_serialize
participants-Reads l v =
    dls-Reads ParticipantReadable participant_serialize participant_deserialize participant_restored
      participant-Reads l.max_size l (omega (arith, length-take l.max_size l.entries)) v

history_entries-Reads :
    (l : HistoryEntriesList)
    → All HistoryEntryReadable (written l)
    → Reads
        (history_entries_deserialize (dls_init l.max_size))
        (history_entries_serialize l)
        (refilled history_entry_restored l.max_size (written l))
unfolding history_entries_deserialize history_entries_serialize
history_entries-Reads l v =
    dls-Reads HistoryEntryReadable history_entry_serialize history_entry_deserialize
      history_entry_restored history_entry-Reads l.max_size l
      (omega (arith, length-take l.max_size l.entries)) v

-- No part of the room is beyond what its reader takes, up to the limits of its lists.
abbrev pub RoomReadable : Room → Type 0
RoomReadable room =
    (bpt_size room.node ≤ max_jid_part_size)
    × (bpt_size room.title ≤ user_string_option_limit)
    × (bpt_size room.description ≤ user_string_option_limit)
    × (bpt_size room.password ≤ user_string_option_limit)
    × (bpt_size room.subject_node ≤ user_string_option_limit)
    × (bpt_size room.subject_nick ≤ user_string_option_limit)
    × (room.default_role < 4294967296)
    × (room.participants.max_size < 1073741824)
    × (room.history.max_size < 1073741824)
    × All HistoryEntryReadable (written room.history)
    × All ParticipantReadable (written room.participants)
    × AffiliationsReadable room.affiliations.owners
    × AffiliationsReadable room.affiliations.admins
    × AffiliationsReadable room.affiliations.members
    × AffiliationsReadable room.affiliations.outcasts

-- What the file holds of a list of affiliations.
abbrev pub affiliations_restored : AffiliationsList → AffiliationsList
affiliations_restored l = refilled affiliation_restored 10240 (written l)

-- What the file holds of a room.
abbrev pub room_restored : Room → Room
room_restored room = record {
  node = stored room.node;
  title = stored room.title;
  description = stored room.description;
  password = stored room.password;
  flags = room.flags;
  default_role = room.default_role;
  participants =
      refilled participant_restored room.participants.max_size (written room.participants);
  affiliations = record {
    outcasts = affiliations_restored room.affiliations.outcasts;
    nones = dls_init 10240;
    members = affiliations_restored room.affiliations.members;
    admins = affiliations_restored room.affiliations.admins;
    owners = affiliations_restored room.affiliations.owners;
  };
  history = refilled history_entry_restored room.history.max_size (written room.history);
  subject_node = stored room.subject_node;
  subject_nick = stored room.subject_nick;
  next_id = room.participants.max_size + 1;
}

-- A room that was saved is read back, and the bytes behind it in the file are left, if its strings,
-- identifiers and numbers are within what the readers take. Of each list it is the entries up to the
-- limit that the list had; the counter of a list is twice their number; an empty string is null. The
-- occupants stand in new blocks, with no times and no marks; the lists of affiliations have the limit
-- 10240, and that of AFFIL_NONE, which is not saved, is empty.
pub room_deserialize-room_serialize :
    (room : Room) (rest : Bytes)
    → RoomReadable room
    → room_deserialize (room_serialize room ++ rest) ≡ some (room_restored room, rest)
unfolding room_deserialize room_serialize
room_deserialize-room_serialize room rest v =
    let flags_fit : bits_word (flag_bits room.flags) < 131072 =
      bits_word-bound (flag_bits room.flags) in
    let participants_limit : leb 2147483648 room.participants.max_size ≡ false =
      ground (arith, v.7) in
    let history_limit : leb 2147483648 room.history.max_size ≡ false = ground (arith, v.8) in
    simp (
      append_assoc,
      buffer-Reads max_jid_part_size room.node v.0 (omega arith),
      buffer-Reads user_string_option_limit room.title v.1 (omega arith),
      buffer-Reads user_string_option_limit room.description v.2 (omega arith),
      buffer-Reads user_string_option_limit room.password v.3 (omega arith),
      buffer-Reads user_string_option_limit room.subject_node v.4 (omega arith),
      buffer-Reads user_string_option_limit room.subject_nick v.5 (omega arith),
      word-Reads 4 (bits_word (flag_bits room.flags)) (omega (arith, flags_fit)),
      word-Reads 4 room.default_role (omega (arith, v.6)),
      word-Reads 4 room.participants.max_size (omega (arith, v.7)),
      word-Reads 4 room.history.max_size (omega (arith, v.8)),
      word-Reads 48 0 (omega arith),
      participants_limit,
      history_limit,
      history_entries-Reads room.history v.9,
      participants-Reads room.participants v.10,
      affiliations-Reads room.affiliations.owners v.11,
      affiliations-Reads room.affiliations.admins v.12,
      affiliations-Reads room.affiliations.members v.13,
      affiliations-Reads room.affiliations.outcasts v.14,
      flags_of-flag_bits room.flags,
    )
