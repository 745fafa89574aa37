-- ===== src/Room/Presence/Present.antt =====
-- The occupants' invariant after `route_presence` for a sender who is in the room.
use mukite.Room.Presence.Cases.{present-by}
use mukite.Common.{
  Ensures, bind-Ensures, ltb, ◌||◌, ◌≡◌, refl, sym, subst, inl, inr, none, some, List, [], ◌==◌,
  if◌then◌else◌, true, false, Bool, Bool-cases, Outcome,
}
use mukite.Buffer.{BufferPtr, contents, buffer_ptr_cpy}
use mukite.Participant.{Participant, update, participants_find_by_nick}
use mukite.Participant.Nodes.{Holds, update-Holds}
use mukite.Participant.Unique.{find_by_nick-none}
use mukite.Packet.{
  bytes_at, IncomingPacket, BuilderPacket, stanza_presence_unavailable, packet_cleanup,
  cleanup_from_to, worker_bounce,
}
use mukite.Room.{role_visitor, Room, Routed, room_leave, set_participant}
use mukite.Room.Valid.{OccupantsValid, set_participant-IsValid, room_leave-IsValid}
use mukite.Room.Errors.{RoomError, occupant_conflict}
use mukite.Room.Message.{bounce}
use mukite.Room.Presence.{present, finish, finish_cleaned}

abbrev pub Keeps : Outcome Routed → Type 0
Keeps = Ensures (λ r. OccupantsValid r.room)

pub bounce-Keeps :
    (room : Room) (ingress : IncomingPacket) (e : RoomError)
    → OccupantsValid room
    → Keeps (bounce room ingress e)
unfolding bounce
bounce-Keeps room ingress e v = bind-Ensures _ (worker_bounce ingress _ room.node) _ (λ p. v)

contents-buffer_ptr_cpy : (b : BufferPtr) → contents (buffer_ptr_cpy b) ≡ contents b
unfolding buffer_ptr_cpy
contents-buffer_ptr_cpy none = refl
contents-buffer_ptr_cpy (some b) = refl

-- The sender with another presence and role.
pub written :
    (room : Room) (p q : Participant)
    → OccupantsValid room
    → Holds p room.participants.entries
    → q.id ≡ p.id
    → q.jid ≡ p.jid
    → q.nick ≡ p.nick
    → OccupantsValid (set_participant room q)
      × Holds q (set_participant room q).participants.entries
written room p q v h id jid nick = (
  set_participant-IsValid room p q v h id jid (inl nick),
  subst (λ t. Holds q (update t (λ _. q) room.participants.entries)) (sym id)
      (update-Holds p q room.participants.entries id h),
)

-- What a conditional write of the presence keeps of a sender.
abbrev pub shown_if : Bool → Participant → BufferPtr → Participant
shown_if c p presence = if c then record p { presence = presence } else p

pub shown_if-id : (c : Bool) (p : Participant) (b : BufferPtr) → (shown_if c p b).id ≡ p.id
shown_if-id true p b = refl
shown_if-id false p b = refl

pub shown_if-jid : (c : Bool) (p : Participant) (b : BufferPtr) → (shown_if c p b).jid ≡ p.jid
shown_if-jid true p b = refl
shown_if-jid false p b = refl

pub shown_if-nick : (c : Bool) (p : Participant) (b : BufferPtr) → (shown_if c p b).nick ≡ p.nick
shown_if-nick true p b = refl
shown_if-nick false p b = refl

pub leaves :
    (room : Room) (p q : Participant)
    → OccupantsValid room
    → Holds p room.participants.entries
    → q.id ≡ p.id
    → q.jid ≡ p.jid
    → q.nick ≡ p.nick
    → OccupantsValid (room_leave (set_participant room q) p.id)
leaves room p q v h id jid nick =
    let w = written room p q v h id jid nick in
    subst (λ t. OccupantsValid (room_leave (set_participant room q) t)) id
      (room_leave-IsValid (set_participant room q) q w.0 w.1)

pub finish-Valid :
    (room : Room) (ingress : IncomingPacket) (sender : Participant) (joined : Bool)
    (sent : List BuilderPacket)
    → OccupantsValid room
    → Holds sender room.participants.entries
    → OccupantsValid (finish room ingress sender joined sent).room
unfolding finish
finish-Valid room ingress sender joined sent v h =
    let c = ltb role_visitor sender.role || room.flags.visitor_presence in
    let b = bytes_at ingress.mem ingress.inner in
    elim (Bool-cases (ingress.type == stanza_presence_unavailable)) [
      | inl e ↦ rw e (
          leaves room sender _ v h (shown_if-id c sender b) (shown_if-jid c sender b)
            (shown_if-nick c sender b))
      | inr e ↦
          rw e
            (written room sender _ v h (shown_if-id c sender b) (shown_if-jid c sender b)
              (shown_if-nick c sender b)).0
    ]

finish_cleaned-Keeps :
    (room : Room) (ingress : IncomingPacket) (sender : Participant)
    → OccupantsValid room
    → Holds sender room.participants.entries
    → Keeps (finish_cleaned room ingress sender)
unfolding finish_cleaned
finish_cleaned-Keeps room ingress sender v h =
    bind-Ensures _ (packet_cleanup ingress cleanup_from_to) _
      (λ p. finish-Valid room p sender false [] v h)

-- A new nick that nobody carries.
renames :
    (room : Room) (ingress : IncomingPacket) (p : Participant) (nick : BufferPtr)
    (sent : List BuilderPacket)
    → OccupantsValid room
    → Holds p room.participants.entries
    → participants_find_by_nick room.participants.entries nick ≡ none
    → OccupantsValid
        (finish
          (set_participant room (record p { nick = buffer_ptr_cpy nick }))
          ingress
          (record p { nick = buffer_ptr_cpy nick })
          false
          sent).room
renames room ingress p nick sent v h free =
    let q : Participant = record p { nick = buffer_ptr_cpy nick } in
    finish-Valid (set_participant room q) ingress q false sent
      (set_participant-IsValid room p q v h refl refl (
        inr (
          rw (contents-buffer_ptr_cpy nick)
            (find_by_nick-none room.participants.entries nick free))))
      (update-Holds p q room.participants.entries refl h)

pub present-Keeps :
    (room : Room) (ingress : IncomingPacket) (sender : Participant)
    → OccupantsValid room
    → Holds sender room.participants.entries
    → Keeps (present room ingress sender)
present-Keeps room ingress sender v h =
    present-by Keeps room ingress sender (finish_cleaned-Keeps room ingress sender v h) v
      (bounce-Keeps room ingress occupant_conflict v)
      (λ free. renames room ingress sender ingress.proxy_to.resource _ v h free)
