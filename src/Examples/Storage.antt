-- ===== src/Examples/Storage.antt =====
-- Rooms that are saved and read back.
use mukite.Common.{refl, ◌∷◌, [], ◌++◌, ◌≡◌, some, none, arith, length, take}
use mukite.Affiliation.{
  affil_owner, affiliationss_add, locate, affiliations_find_by_jid, put_entry,
  affiliation_set_reason,
}
use mukite.Buffer.{bpt_setter}
use mukite.Room.{Room, room_init, no_affiliations}
use mukite.Jid.{jid_str, jid_struct}
use mukite.Serializer.{buffer_serialize, buffer_deserialize, dls_serialize, dls_deserialize}
use mukite.Room.Storage.{
  jid_serialize, jid_deserialize, participant_serialize, participant_deserialize,
  affiliation_serialize, affiliation_deserialize, participants_serialize, participants_deserialize,
  affiliations_serialize, affiliations_deserialize, history_entries_serialize,
  history_entries_deserialize, room_serialize, room_deserialize,
}
use mukite.Room.Storage.Entries.{ParticipantReadable, AffiliationReadable}
use mukite.Room.Storage.Restored.{RoomReadable, room_restored, room_deserialize-room_serialize}
use mukite.Room.Storage.Lost.{Change, after_changes, all_lost, room_serialize-loses_affiliations}
use mukite.Examples.Data.{ann, ann_in_room, ann_affiliation, cmp_runs}
use mukite.Examples.Rooms.{den, room_node}

ann-ParticipantReadable : ParticipantReadable ann_in_room
ann-ParticipantReadable = (
  (
    (omega arith, omega arith, omega arith),
    omega arith,
    ground arith,
    omega arith,
    (ground arith, omega arith),
  ),
  omega arith,
  omega arith,
  omega arith,
  omega arith,
)

ann-AffiliationReadable : AffiliationReadable ann_affiliation
ann-AffiliationReadable = (
  ((omega arith, omega arith, omega arith), omega arith, ground arith, omega arith, tt),
  omega arith,
)

den-RoomReadable : RoomReadable den
den-RoomReadable = (
  omega arith,
  omega arith,
  omega arith,
  omega arith,
  omega arith,
  omega arith,
  omega arith,
  omega arith,
  omega arith,
  tt,
  (ann-ParticipantReadable, tt),
  (omega arith, (ann-AffiliationReadable, tt)),
  (omega arith, tt),
  (omega arith, tt),
  (omega arith, tt),
)

room_deserialize-room_serialize_example :
    room_deserialize (room_serialize den ++ (7 ∷ [])) ≡ some (room_restored den, 7 ∷ [])
room_deserialize-room_serialize_example =
    room_deserialize-room_serialize den (7 ∷ []) den-RoomReadable

-- A new room that Ann has been given, and has entered.
abbrev ann_owner : Change
ann_owner = record { sender = none; affiliation = affil_owner; jid = ann; reason = none }

abbrev new_den : Room
new_den = record (room_init room_node) {
  participants = den.participants;
  affiliations = after_changes no_affiliations (ann_owner ∷ []);
}

-- What a run of `affiliationss_add` computes with.
unfoldable add_runs : Unit {0}
unfolding affiliationss_add locate affiliations_find_by_jid put_entry affiliation_set_reason
    bpt_setter cmp_runs
add_runs = tt

ann_owns_new_den : length new_den.affiliations.owners.entries ≡ 1
unfolding add_runs
ann_owns_new_den = refl

new_den-RoomReadable : RoomReadable new_den
unfolding add_runs room_init
new_den-RoomReadable = (
  omega arith,
  omega arith,
  omega arith,
  omega arith,
  omega arith,
  omega arith,
  omega arith,
  omega arith,
  omega arith,
  tt,
  (ann-ParticipantReadable, tt),
  (omega arith, tt),
  (omega arith, tt),
  (omega arith, tt),
  (omega arith, tt),
)

room_serialize-loses_affiliations_example :
    room_deserialize (room_serialize new_den ++ [])
    ≡ some (record (room_restored new_den) { affiliations = all_lost }, [])
room_serialize-loses_affiliations_example =
    room_serialize-loses_affiliations new_den (ann_owner ∷ []) [] refl new_den-RoomReadable

-- What a run of the reader and the writer computes with.
unfoldable storage_runs : Unit {0}
unfolding room_serialize room_deserialize participants_serialize participants_deserialize
    affiliations_serialize affiliations_deserialize history_entries_serialize
    history_entries_deserialize participant_serialize participant_deserialize affiliation_serialize
    affiliation_deserialize jid_serialize jid_deserialize buffer_serialize buffer_deserialize
    dls_serialize dls_deserialize jid_struct jid_str
storage_runs = tt

den_read_back : room_deserialize (room_serialize den) ≡ some (room_restored den, [])
unfolding storage_runs
den_read_back = refl

-- A file that ends too early is refused.
cut_short : room_deserialize (take 200 (room_serialize den)) ≡ none
unfolding storage_runs
cut_short = refl
