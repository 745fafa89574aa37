-- ===== src/Room/Storage/Entries.antt =====
-- What is read back of an identifier, a participant, an affiliation or a history entry.
use mukite.Common.{
  ℕ, ◌<◌, ◌≤◌, ◌≡◌, ◌≢◌, refl, subst, ap, true, false, none, some, [], ◌∷◌, ◌++◌, Bytes, length,
  append_assoc, length-append, arith,
}
use mukite.Buffer.{BufferPtr, bpt_size}
use mukite.Jid.{
  Jid, jid_str, node_prefix, resource_suffix, jid_struct, max_jid_part_size, max_jid_size,
}
use mukite.Jid.Parse.{
  Lacks, NodeReadable, ResourceReadable, of_parts, jid_struct-jid_str, jid_struct-fits,
}
use mukite.Participant.{Participant, max_presence_size}
use mukite.Affiliation.{Affiliation, max_affiliation_reason_size}
use mukite.History.{HistoryEntry, max_history_header_size, max_history_inner_size}
use mukite.Serializer.Reads.{Reads, word-Reads, stored, buffer-Reads}
use mukite.Room.Storage.{
  jid_serialize, jid_deserialize, participant_serialize, participant_deserialize,
  affiliation_serialize, affiliation_deserialize, history_entry_serialize,
  history_entry_deserialize,
}

-- The identifier is one that `jid_struct` tells from its bytes.
abbrev pub JidReadable : BufferPtr → BufferPtr → BufferPtr → Type 0
JidReadable n none r = ⊥
JidReadable n (some h) r =
    NodeReadable n h × Lacks b'/' h × (h ≢ []) × (length h ≤ max_jid_part_size) × ResourceReadable r

stored-some : (b : Bytes) → 0 < length b → stored (some b) ≡ some b
stored-some [] h = absurd (omega (arith, h))
stored-some (c ∷ b) h = refl

host_in_str :
    (n : BufferPtr) (h : Bytes) (r : BufferPtr) → h ≢ [] → 0 < length (jid_str (of_parts n h r))
unfolding jid_str
host_in_str n [] r ne = absurd (ne refl)
host_in_str n (c ∷ h) r ne = omega (
  arith,
  length-append (node_prefix n) ((c ∷ h) ++ resource_suffix r),
  length-append (c ∷ h) (resource_suffix r),
)

parts-Reads :
    (n h r : BufferPtr)
    → JidReadable n h r
    → let j : Jid = record { node = n; host = h; resource = r } in
      Reads jid_deserialize (jid_serialize j) j
unfolding jid_deserialize jid_serialize
parts-Reads n none r v rest = absurd v
parts-Reads n (some h) r v rest =
    let s = jid_str (of_parts n h r) in
    let accepted : jid_struct (some s) ≡ (of_parts n h r, true) =
      jid_struct-jid_str n h r v.0 v.1 v.2 v.3 v.4 in
    let fits = jid_struct-fits (some s) (ap (λ p. p.1) accepted) in
    let short : length s ≤ max_jid_size =
      subst (λ p. length (jid_str p.0) ≤ max_jid_size) accepted fits.1 in
    simp (
      buffer-Reads max_jid_size (some s) short (omega arith),
      stored-some s (host_in_str n h r v.2),
      accepted,
    )

jid-Reads :
    (j : Jid) → JidReadable j.node j.host j.resource → Reads jid_deserialize (jid_serialize j) j
jid-Reads j v = parts-Reads j.node j.host j.resource v

abbrev pub ParticipantReadable : Participant → Type 0
ParticipantReadable p =
    JidReadable p.jid.node p.jid.host p.jid.resource
    × (bpt_size p.nick ≤ max_jid_part_size)
    × (bpt_size p.presence ≤ max_presence_size)
    × (p.affiliation < 4294967296)
    × (p.role < 4294967296)

-- The participant in another block, as far as it is saved.
abbrev pub participant_restored : ℕ → Participant → Participant
participant_restored id p = record p {
  id = id;
  nick = stored p.nick;
  presence = stored p.presence;
  last_message_time = 0;
  last_presence_time = 0;
  included = false;
  reason_node = none;
}

pub participant-Reads :
    (id : ℕ) (p : Participant)
    → ParticipantReadable p
    → Reads (participant_deserialize id) (participant_serialize p) (participant_restored id p)
unfolding participant_deserialize participant_serialize
participant-Reads id p v rest = simp (
  append_assoc,
  jid-Reads p.jid v.0,
  buffer-Reads max_jid_part_size p.nick v.1 (omega arith),
  buffer-Reads max_presence_size p.presence v.2 (omega arith),
  word-Reads 4 p.affiliation (omega (arith, v.3)),
  word-Reads 4 p.role (omega (arith, v.4)),
)

abbrev pub AffiliationReadable : Affiliation → Type 0
AffiliationReadable a =
    JidReadable a.jid.node a.jid.host a.jid.resource
    × (bpt_size a.reason_node ≤ max_affiliation_reason_size)

abbrev pub affiliation_restored : ℕ → Affiliation → Affiliation
affiliation_restored id a = record a { reason_node = stored a.reason_node }

pub affiliation-Reads :
    (id : ℕ) (a : Affiliation)
    → AffiliationReadable a
    → Reads (affiliation_deserialize id) (affiliation_serialize a) (affiliation_restored id a)
unfolding affiliation_deserialize affiliation_serialize
affiliation-Reads id a v rest = simp (
  append_assoc,
  jid-Reads a.jid v.0,
  buffer-Reads max_affiliation_reason_size a.reason_node v.1 (omega arith),
)

abbrev pub HistoryEntryReadable : HistoryEntry → Type 0
HistoryEntryReadable e =
    (bpt_size e.nick ≤ max_jid_part_size)
    × (bpt_size e.header ≤ max_history_header_size)
    × (bpt_size e.inner ≤ max_history_inner_size)
    × (e.delay < 18446744073709551616)

abbrev pub history_entry_restored : ℕ → HistoryEntry → HistoryEntry
history_entry_restored id e = record e {
  nick = stored e.nick;
  header = stored e.header;
  inner = stored e.inner;
}

pub history_entry-Reads :
    (id : ℕ) (e : HistoryEntry)
    → HistoryEntryReadable e
    → Reads (history_entry_deserialize id) (history_entry_serialize e) (history_entry_restored id e)
unfolding history_entry_deserialize history_entry_serialize
history_entry-Reads id e v rest = simp (
  append_assoc,
  buffer-Reads max_jid_part_size e.nick v.0 (omega arith),
  buffer-Reads max_history_header_size e.header v.1 (omega arith),
  buffer-Reads max_history_inner_size e.inner v.2 (omega arith),
  word-Reads 8 e.delay (omega (arith, v.3)),
)
