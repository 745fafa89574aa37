-- ===== src/Room/Message/Groupchat.antt =====
-- Messages to the room: the occupants they leave, the rate limit, and the history.
use mukite.Room.Message.Cases.{timed}
use mukite.Common.{
  ◌>>=◌, Ensures, bind-Ensures, ◌-◌, ℕ, ◌+◌, ◌≡◌, refl, subst, ◌≤◌, ◌<◌, Bool-cases, true, false,
  not, inl, inr, Option, none, some, List, [], ◌∷◌, arith, ◌==◌, ltb, ◌&&◌, Outcome, ok,
}
use mukite.Buffer.{bpt_null}
use mukite.Jid.{Jid, JidMode, jid_cmp}
use mukite.Xmlfsm.{Span}
use mukite.Participant.{Participant, update, participants_find_by_jid, find_by_jid, find_mode}
use mukite.Participant.Nodes.{Below, find_by_jid-Holds, Holds-lt}
use mukite.History.{history_entries_push, set_inner}
use mukite.Packet.{IncomingPacket, cleanup_to_send, cleanup_from_to, worker_bounce, bytes_at}
use mukite.Room.{
  Room, Routed, role_moderator, role_participant, set_participant, user_string_option_limit,
}
use mukite.Room.Errors.{RoomError, traffic_rate, privilege_level, iq_bad}
use mukite.Room.Message.{
  bounce, broadcast_message, with_subject, set_subject, get_subject_node, route_groupchat,
  route_message,
}
use mukite.Room.Valid.{OccupantsValid}

-- The occupants, the flags and the next address are as before.
pub record SameOccupants (before after : Room) : Type 0 where
  pub participants : after.participants ≡ before.participants
  pub flags : after.flags ≡ before.flags
  pub next_id : after.next_id ≡ before.next_id

abbrev pub Keeps : Room → Outcome Routed → Type 0
Keeps room = Ensures (λ l. SameOccupants room l.room)

pub unchanged : (room : Room) → SameOccupants room room
unchanged room = record { participants = refl; flags = refl; next_id = refl }

pub bounce-SameOccupants :
    (room : Room) (ingress : IncomingPacket) (e : RoomError) → Keeps room (bounce room ingress e)
unfolding bounce
bounce-SameOccupants room ingress e =
    bind-Ensures _ (worker_bounce ingress _ room.node) _ (λ p. unchanged room)

broadcast-SameOccupants :
    (room at : Room) (ingress : IncomingPacket) (p : Participant)
    → SameOccupants room at
    → Keeps room (broadcast_message at ingress p)
unfolding broadcast_message
broadcast-SameOccupants room at ingress p same =
    bind-Ensures _ (cleanup_to_send ingress cleanup_from_to) _ (λ q.
      bind-Ensures _ (history_entries_push at.history) _ (λ pushed.
        bind-Ensures _ (set_inner pushed.0 pushed.1 (bytes_at q.mem q.inner)) _ (λ h. record {
          participants = same.participants;
          flags = same.flags;
          next_id = same.next_id;
        })))

with_subject-SameOccupants :
    (room : Room) (ingress : IncomingPacket) (p : Participant) (s : Option Span)
    → Keeps room (with_subject room ingress p s)
unfolding with_subject
with_subject-SameOccupants room ingress p none =
    broadcast-SameOccupants room room ingress p (unchanged room)
with_subject-SameOccupants room ingress p (some s) =
    elim (Bool-cases (ltb p.role role_moderator && not room.flags.change_subject)) [
      | inl low ↦ rw low (bounce-SameOccupants room ingress privilege_level)
      | inr may ↦ rw may (elim (Bool-cases (ltb user_string_option_limit (s.stop - s.start))) [
        | inl long ↦ rw long (bounce-SameOccupants room ingress iq_bad)
        | inr fits ↦ rw fits (
            broadcast-SameOccupants room (set_subject room p ingress s) ingress p
              (record { participants = refl; flags = refl; next_id = refl }))
      ])
    ]

-- What follows the guards of a message to the room.
pub sent-SameOccupants :
    (room : Room) (ingress : IncomingPacket) (p : Participant)
    → Keeps room (get_subject_node ingress.mem ingress.inner >>= with_subject room ingress p)
sent-SameOccupants room ingress p =
    bind-Ensures _ (get_subject_node ingress.mem ingress.inner) _
      (λ s. with_subject-SameOccupants room ingress p s)

-- A message that passes the first two guards.
timed-SameOccupants :
    (room : Room) (ingress : IncomingPacket) (ticks limit : ℕ) (p : Participant)
    → (room.flags.moderated_room && ltb p.role role_participant) ≡ false
    → limit + p.last_message_time ≤ ticks
    → Keeps (set_participant room (timed p ticks)) (route_groupchat room ingress ticks limit p)
unfolding route_groupchat
timed-SameOccupants room ingress ticks limit p loud late =
    let in_time : ltb ticks (limit + p.last_message_time) ≡ false = ground arith in
    rw (loud, in_time)
      (sent-SameOccupants (set_participant room (timed p ticks)) ingress (timed p ticks))

-- The first participant with the JID carries what was last written to them.
pub find_by_jid-update :
    (n : ℕ) (ps : List Participant) (j : Jid) (mode : JidMode) (p q : Participant)
    → Below n ps
    → find_by_jid ps j mode ≡ some p
    → q.jid ≡ p.jid
    → find_by_jid (update p.id (λ _. q) ps) j mode ≡ some q
unfolding find_by_jid update
find_by_jid-update n [] j mode p q b e jid = cc
find_by_jid-update n (x ∷ ps) j mode p q b e jid = elim (Bool-cases (jid_cmp x.jid j mode == 0)) [
  | inl here ↦
      let same : x ≡ p = ground arith in
      let hit : (jid_cmp q.jid j mode == 0) ≡ true = rw (jid, ← same) here in
      let at : (x.id == p.id) ≡ true = ground (arith, same) in rw (at, hit) refl
  | inr other ↦
      let h : find_by_jid ps j mode ≡ some p = ground arith in
      ground (
        arith,
        find_by_jid-update x.id ps j mode p q b.1 h jid,
        Holds-lt p x.id ps b.1 (find_by_jid-Holds x.id ps j mode b.1 h),
      )
]

-- The same for the mode that a JID is looked up with.
participants_find_by_jid-update :
    (n : ℕ) (ps : List Participant) (j : Jid) (p q : Participant)
    → Below n ps
    → participants_find_by_jid ps j ≡ some p
    → q.jid ≡ p.jid
    → participants_find_by_jid (update p.id (λ _. q) ps) j ≡ some q
unfolding participants_find_by_jid
participants_find_by_jid-update n ps j p q b e jid =
    find_by_jid-update n ps j (find_mode j) p q b e jid

-- In a room that keeps the occupants' invariant: an occupant, no visitor if the room is moderated, sends
-- a message to the room at least `limit` ticks after their last one, and the call returns. Another message
-- to the room from the same JID, sooner than `limit` ticks later, gets the error on the traffic rate, from
-- the room as the first message left it.
pub route_message-rate :
    (room : Room) (first second : IncomingPacket) (ticks later limit : ℕ) (p : Participant)
    {l : Routed}
    → OccupantsValid room
    → participants_find_by_jid room.participants.entries first.real_from ≡ some p
    → second.real_from ≡ first.real_from
    → bpt_null first.proxy_to.resource ≡ true
    → bpt_null second.proxy_to.resource ≡ true
    → (room.flags.moderated_room && ltb p.role role_participant) ≡ false
    → limit + p.last_message_time ≤ ticks
    → route_message room first ticks limit ≡ ok l
    → later < limit + ticks
    → route_message l.room second later limit ≡ bounce l.room second traffic_rate
unfolding route_message route_groupchat
route_message-rate room first second ticks later limit p {l} v sender same to_room to_room' loud
      late done soon =
    let run : route_groupchat room first ticks limit p ≡ ok l =
      rw (route_message, sender, to_room) at done in
    let kept : SameOccupants (set_participant room (timed p ticks)) l.room =
      subst (Keeps (set_participant room (timed p ticks))) run
        (timed-SameOccupants room first ticks limit p loud late) in
    let found : participants_find_by_jid l.room.participants.entries second.real_from
        ≡ some (timed p ticks) =
      rw (kept.participants, same)
        (participants_find_by_jid-update room.next_id room.participants.entries first.real_from p
          (timed p ticks) v.ids sender refl) in
    let guard : (l.room.flags.moderated_room && ltb p.role role_participant) ≡ false =
      rw kept.flags loud in
    let early : ltb later (limit + ticks) ≡ true = ground (arith, soon) in
    rw (route_message, found, to_room', guard, early) refl
