-- ===== src/Room/Valid.antt =====
-- The invariant of a room's occupants, for joining, leaving and writing.
use mukite.Common.{
  ℕ, ◌+◌, ◌≡◌, refl, sym, subst, ◌≤◌, ◌<◌, ◌⊎◌, inl, inr, none, some, List, [], ◌∷◌, arith, length,
  Bool-cases, bytes_eq, Bytes, bytes_eq→eq, length-delete_at,
}
use mukite.Buffer.{bpt_size, BufferPtr, contents, bpt_setter, realloc_copy}
use mukite.Utss.{dls_prepend, dls_delete}
use mukite.Jid.{Jid, max_jid_part_size, jid_full, jid_set}
use mukite.Jid.Compare.{NodeFilled, jid_cmp-jid_set_full}
use mukite.Participant.{
  Participant, update, position, participant_init, participants_find_by_jid,
  participants_find_by_nick,
}
use mukite.Participant.Nodes.{
  Below, Holds, sum_of, sum_of-update, sum_of-delete, update-Below, delete-Below,
}
use mukite.Participant.Unique.{
  nick_hit, jid_hit, find_by_nick-none, find_by_jid-none, jid_hits_congr,
}
use mukite.Room.{Room, ParticipantsList, room_join, room_leave, set_participant}

-- The nodes have addresses of their own below the next one, no two occupants carry a nick, no two
-- carry a full JID, and the counter is the number of nodes.
pub record IsValid (l : ParticipantsList) (next_id : ℕ) : Type 0 where
  pub ids : Below next_id l.entries
  pub nicks : (n : Bytes) → sum_of (nick_hit n) l.entries ≤ 1
  pub jids : (j : Jid) → sum_of (jid_hit j) l.entries ≤ 1
  pub counted : l.size ≡ length l.entries

pub length-update :
    (id : ℕ) (q : Participant) (ps : List Participant) → length (update id (λ _. q) ps) ≡ length ps
unfolding update
length-update id q [] = refl
length-update id q (p ∷ ps) = ground (arith, length-update id q ps)

abbrev pub write_node : ParticipantsList → Participant → Participant → ParticipantsList
write_node l p q = record l { entries = update p.id (λ _. q) l.entries }

-- A write to a node that keeps its address and JID, and its nick or takes a free one.
pub write-IsValid :
    (l : ParticipantsList) (next_id : ℕ) (p q : Participant)
    → IsValid l next_id
    → Holds p l.entries
    → q.id ≡ p.id
    → q.jid ≡ p.jid
    → (q.nick ≡ p.nick) ⊎ (sum_of (nick_hit (contents q.nick)) l.entries ≡ 0)
    → IsValid (write_node l p q) next_id
write-IsValid l next_id p q v h id jid nick = record {
  ids = update-Below next_id p q l.entries id v.ids;
  nicks = λ n. nick_bound n nick;
  jids = λ j. ground (arith, sum_of-update (jid_hit j) p q l.entries h, v.jids j, jid);
  counted = omega (arith, v.counted, length-update p.id q l.entries);
}
  where
    nick_bound :
        (n : Bytes)
        → (q.nick ≡ p.nick) ⊎ (sum_of (nick_hit (contents q.nick)) l.entries ≡ 0)
        → sum_of (nick_hit n) (update p.id (λ _. q) l.entries) ≤ 1
    nick_bound n (inl same) =
        ground (arith, sum_of-update (nick_hit n) p q l.entries h, v.nicks n, same)
    nick_bound n (inr free) = elim (Bool-cases (bytes_eq (contents q.nick) n)) [
      | inl own ↦
          let e : contents q.nick ≡ n = bytes_eq→eq (contents q.nick) n own in
          let none_yet : sum_of (nick_hit n) l.entries ≡ 0 =
            subst (λ t. sum_of (nick_hit t) l.entries ≡ 0) e free in
          ground (arith, sum_of-update (nick_hit n) p q l.entries h, none_yet)
      | inr other ↦ ground (arith, sum_of-update (nick_hit n) p q l.entries h, v.nicks n)
    ]

pub position-lt :
    (p : Participant) (ps : List Participant) → Holds p ps → position p.id ps < length ps
unfolding position
position-lt p [] h = absurd h
position-lt p (r ∷ ps) (inl e) = ground arith
position-lt p (r ∷ ps) (inr h) = ground (arith, h.0, position-lt p ps h.1)

pub delete-IsValid :
    (l : ParticipantsList) (next_id : ℕ) (p : Participant)
    → IsValid l next_id
    → Holds p l.entries
    → IsValid (dls_delete l (position p.id l.entries)) next_id
delete-IsValid l next_id p v h = record {
  ids = delete-Below next_id (position p.id l.entries) l.entries v.ids;
  nicks = λ n. omega (arith, sum_of-delete (nick_hit n) p l.entries h, v.nicks n);
  jids = λ j. omega (arith, sum_of-delete (jid_hit j) p l.entries h, v.jids j);
  counted = omega (
    arith,
    v.counted,
    length-delete_at (position p.id l.entries) l.entries (position-lt p l.entries h),
  );
}

-- A newcomer at the next address, whose nick and JID nobody carries.
pub prepend-IsValid :
    (l : ParticipantsList) (next_id : ℕ) (p : Participant)
    → IsValid l next_id
    → p.id ≡ next_id
    → sum_of (nick_hit (contents p.nick)) l.entries ≡ 0
    → sum_of (jid_hit p.jid) l.entries ≡ 0
    → IsValid (dls_prepend l p) (next_id + 1)
prepend-IsValid l next_id p v id nick jid = record {
  ids = (omega arith, subst (λ t. Below t l.entries) (sym id) v.ids);
  nicks = λ n. by_nick n;
  jids = λ j. ground (arith, jid, v.jids j, jid_hits_congr l.entries p.jid j);
  counted = omega (arith, v.counted);
}
  where
    by_nick : (n : Bytes) → sum_of (nick_hit n) (p ∷ l.entries) ≤ 1
    by_nick n = elim (Bool-cases (bytes_eq (contents p.nick) n)) [
      | inl own ↦
          let e : contents p.nick ≡ n = bytes_eq→eq (contents p.nick) n own in
          let none_yet : sum_of (nick_hit n) l.entries ≡ 0 =
            subst (λ t. sum_of (nick_hit t) l.entries ≡ 0) e nick in
          ground (arith, none_yet)
      | inr other ↦ ground (arith, v.nicks n)
    ]

abbrev pub OccupantsValid : Room → Type 0
OccupantsValid room = IsValid room.participants room.next_id

-- The same for the functions of the room.
pub set_participant-IsValid :
    (room : Room) (p q : Participant)
    → OccupantsValid room
    → Holds p room.participants.entries
    → q.id ≡ p.id
    → q.jid ≡ p.jid
    → (q.nick ≡ p.nick) ⊎ (sum_of (nick_hit (contents q.nick)) room.participants.entries ≡ 0)
    → OccupantsValid (set_participant room q)
set_participant-IsValid room p q v h id jid nick =
    subst
      (λ t.
        IsValid (record room.participants { entries = update t (λ _. q) room.participants.entries })
          room.next_id)
      (sym id) (write-IsValid room.participants room.next_id p q v h id jid nick)

pub room_leave-IsValid :
    (room : Room) (p : Participant)
    → OccupantsValid room
    → Holds p room.participants.entries
    → OccupantsValid (room_leave room p.id)
unfolding room_leave
room_leave-IsValid room p v h = delete-IsValid room.participants room.next_id p v h

-- A nick of a legal size is set on a fresh node as it is given.
pub nick_set :
    (nick : BufferPtr)
    → bpt_size nick ≤ max_jid_part_size
    → contents (bpt_setter none nick max_jid_part_size).0 ≡ contents nick
unfolding bpt_setter realloc_copy
nick_set none e = refl
nick_set (some []) e = ground arith
nick_set (some (c ∷ b)) e = ground arith

pub room_join-IsValid :
    (room : Room) (j : Jid) (nick : BufferPtr) (a : ℕ)
    → OccupantsValid room
    → NodeFilled j.node
    → NodeFilled j.resource
    → bpt_size nick ≤ max_jid_part_size
    → participants_find_by_nick room.participants.entries nick ≡ none
    → participants_find_by_jid room.participants.entries j ≡ none
    → OccupantsValid (room_join room j nick a).0
unfolding room_join participant_init
room_join-IsValid room j nick a v node resource fits free new =
    prepend-IsValid room.participants room.next_id _ v refl
      (rw (nick_set nick fits) (find_by_nick-none room.participants.entries nick free))
      (omega (
        arith,
        jid_hits_congr room.participants.entries (jid_set j jid_full) j
            (jid_cmp-jid_set_full j node resource),
        find_by_jid-none room.participants.entries j new,
      ))
