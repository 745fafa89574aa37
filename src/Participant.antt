-- ===== src/Participant.antt =====
-- participant.h, participant.c and participants.c: an occupant of a room, and the searches for one.
pub mod Nodes
pub mod Unique
use mukite.Common.{
  ℕ, zero, suc, Bool, true, false, Option, none, some, List, [], ◌∷◌, ◌++◌, Bytes, ◌==◌,
  if◌then◌else◌,
}
use mukite.Buffer.{BufferPtr, contents, bpt_null, bpt_eq, bpt_setter}
use mukite.Jid.{Jid, JidMode, jid_cmp, jid_set, jid_full, jid_node_host, max_jid_part_size}

-- `id` is the address of the node: two pointers to participants are equal if the ids are. The
-- pointers of `affected_list` are the list of ids that the code below builds.
pub record Participant : Type 0 where
  pub id : ℕ
  pub jid : Jid
  pub nick : BufferPtr
  pub affiliation : ℕ
  pub role : ℕ
  pub presence : BufferPtr
  pub last_message_time : ℕ
  pub last_presence_time : ℕ
  pub included : Bool
  pub reason_node : BufferPtr

-- `participant_init` of a fresh node at an address.
unfoldable pub participant_init : ℕ → Jid → Participant
unfolding jid_set
participant_init id j = record {
  id = id;
  jid = jid_set j jid_full;
  nick = none;
  affiliation = 0;
  role = 0;
  presence = none;
  last_message_time = 0;
  last_presence_time = 0;
  included = false;
  reason_node = none;
}

unfoldable pub participant_set_nick : Participant → BufferPtr → Participant × Bool
unfolding bpt_setter
participant_set_nick p nick =
    let (value, done) = bpt_setter p.nick nick max_jid_part_size in
    (record p { nick = value }, done)

abbrev pub max_presence_size : ℕ
max_presence_size = 65000

-- Nothing calls it: route_presence assigns the presence itself, with another limit.
unfoldable pub participant_set_presence : Participant → BufferPtr → Participant × Bool
unfolding bpt_setter
participant_set_presence p presence =
    let (value, done) = bpt_setter p.presence presence max_presence_size in
    (record p { presence = value }, done)

-- `participant_set_affected`: the participant, and the list of the affected so far.
unfoldable pub participant_set_affected : Participant → BufferPtr → List ℕ → Participant × List ℕ
participant_set_affected p reason affected =
    if p.included
    then (p, affected)
    else (record p { included = true; reason_node = reason }, affected ++ (p.id ∷ []))

-- `participants_find_by_nick` over the nodes in list order.
unfoldable pub participants_find_by_nick : List Participant → BufferPtr → Option Participant
participants_find_by_nick [] nick = none
participants_find_by_nick (p ∷ ps) nick =
    if bpt_eq (contents p.nick) nick then some p else participants_find_by_nick ps nick

-- The mode of the search by JID: without a resource, the first occupant of that account is taken.
abbrev pub find_mode : Jid → JidMode
find_mode j = if bpt_null j.resource then jid_node_host else jid_full

unfoldable pub find_by_jid : List Participant → Jid → JidMode → Option Participant
find_by_jid [] j mode = none
find_by_jid (p ∷ ps) j mode = if jid_cmp p.jid j mode == 0 then some p else find_by_jid ps j mode

-- `participants_find_by_jid`
unfoldable pub participants_find_by_jid : List Participant → Jid → Option Participant
unfolding find_by_jid
participants_find_by_jid ps j = find_by_jid ps j (find_mode j)

-- A write through a pointer to a participant: the node with that id is changed.
unfoldable pub update : ℕ → (Participant → Participant) → List Participant → List Participant
update id f [] = []
update id f (p ∷ ps) = if p.id == id then f p ∷ ps else p ∷ update id f ps

-- The position of a node, for its deletion.
unfoldable pub position : ℕ → List Participant → ℕ
position id [] = 0
position id (p ∷ ps) = if p.id == id then 0 else suc (position id ps)
