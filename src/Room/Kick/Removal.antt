-- ===== src/Room/Kick/Removal.antt =====
-- What the room is after an error stanza, and what its occupants are told.
use mukite.Common.{
  ℕ, ◌≡◌, refl, ap, ◌∙◌, subst, inl, inr, none, some, List, [], ◌∷◌, map, arith, Ensures,
  bind-Ensures, delete_at, ◌==◌, if◌then◌else◌,
}
use mukite.Buffer.{BufferPtr}
use mukite.Participant.{Participant, participants_find_by_jid, find_mode, position, update}
use mukite.Participant.Nodes.{Below, Below-mono, Holds, find_by_jid-Holds}
use mukite.Packet.{
  IncomingPacket, BuilderPacket, packet_cleanup, cleanup_from_to, no_status, stanza_presence,
  stanza_presence_unavailable,
}
use mukite.Room.{
  Room, Routed, role_none, room_leave, room_broadcast_presence, presence_packet, set_participant,
}
use mukite.Room.Valid.{OccupantsValid}
use mukite.Room.Presence.Present.{leaves}
use mukite.Room.Kick.{route_error, kicked_sender, kick_status}

-- The occupants at other addresses.
abbrev pub others : ℕ → List Participant → List Participant
others id [] = []
others id (q ∷ ps) = if q.id == id then others id ps else q ∷ others id ps

-- A presence says that the occupant is gone, and why.
pub record TellsOfKick (at : BufferPtr) (p : Participant) (b : BuilderPacket) : Type 0 where
  pub name : b.name ≡ stanza_presence
  pub type : b.type ≡ stanza_presence_unavailable
  pub from_node : b.from_node ≡ at
  pub from_nick : b.from_nick ≡ p.nick
  pub reason : b.user_data ≡ some kick_status

abbrev pub AllTell : BufferPtr → Participant → List BuilderPacket → Type 0
AllTell at p [] = Unit {0}
AllTell at p (b ∷ bs) = TellsOfKick at p b × AllTell at p bs

-- The occupant is gone, the others are as before, and everybody who was in the room is told.
pub record Removed (room : Room) (p : Participant) (l : Routed) : Type 0 where
  pub valid : OccupantsValid l.room
  pub left : l.room.participants.entries ≡ others p.id room.participants.entries
  pub told : map (λ b. b.to) l.sent ≡ map (λ q. q.jid) room.participants.entries
  pub news : AllTell room.node p l.sent
  pub rest : l.room ≡ record room { participants = l.room.participants; flags = l.room.flags }

others-Below : (n : ℕ) (ps : List Participant) → Below n ps → others n ps ≡ ps
others-Below n [] b = refl
others-Below n (q ∷ ps) b =
    let lower : Below n ps = Below-mono q.id n ps (omega (arith, b.0)) b.1 in
    ground (arith, b.0, others-Below n ps lower)

-- Writing to a node and taking it off its list leaves the others.
delete-update :
    (n : ℕ) (p q : Participant) (ps : List Participant)
    → Below n ps
    → Holds p ps
    → q.id ≡ p.id
    → delete_at (position p.id (update p.id (λ _. q) ps)) (update p.id (λ _. q) ps) ≡ others p.id ps
unfolding position update
delete-update n p q [] b h e = absurd h
delete-update n p q (r ∷ ps) b (inl same) e =
    let lower : Below p.id ps = subst (λ t. Below t ps) (ap (λ t. t.id) same) b.1 in
    ground (arith, e, ap (λ t. t.id) same, others-Below p.id ps lower)
delete-update n p q (r ∷ ps) b (inr h) e =
    ground (arith, h.0, e, delete-update r.id p q ps b.1 h.1 e)

jids-update :
    (p q : Participant) (ps : List Participant)
    → Holds p ps
    → q.jid ≡ p.jid
    → map (λ r. r.jid) (update p.id (λ _. q) ps) ≡ map (λ r. r.jid) ps
unfolding update
jids-update p q [] h e = absurd h
jids-update p q (r ∷ ps) (inl same) e = ground (arith, e, ap (λ t. t.id) same, ap (λ t. t.jid) same)
jids-update p q (r ∷ ps) (inr h) e = ground (arith, h.0, jids-update p q ps h.1 e)

found_there :
    (room : Room) (ingress : IncomingPacket) (p : Participant)
    → OccupantsValid room
    → participants_find_by_jid room.participants.entries ingress.real_from ≡ some p
    → Holds p room.participants.entries
unfolding participants_find_by_jid
found_there room ingress p v e =
    find_by_jid-Holds room.next_id room.participants.entries ingress.real_from
      (find_mode ingress.real_from) v.ids e

-- The packets of the broadcast, over any list of receivers.
module _ (room : Room) (p q : Participant) (nick : q.nick ≡ p.nick) (role : q.role ≡ role_none)
    (status : q.presence ≡ some kick_status) where
  abbrev packets : List Participant → List BuilderPacket
  packets ps = map (presence_packet room q none no_status) ps

  packets-AllTell : (ps : List Participant) → AllTell room.node p (packets ps)
  unfolding presence_packet
  packets-AllTell [] = tt
  packets-AllTell (r ∷ ps) = (
    record {
      name = refl;
      type = ground (arith, role);
      from_node = refl;
      from_nick = nick;
      reason = status;
    },
    packets-AllTell ps,
  )

  packets-to : (ps : List Participant) → map (λ b. b.to) (packets ps) ≡ map (λ r. r.jid) ps
  unfolding presence_packet
  packets-to [] = refl
  packets-to (r ∷ ps) = ap (λ l. r.jid ∷ l) (packets-to ps)

-- An error stanza of an occupant that does not fault puts that occupant out of the room: the list
-- keeps the others as they were, in order, and the room all but its list of occupants and its flags,
-- and the occupants' invariant holds. Everybody who was in the room, the sender included, gets one
-- packet, in the order of the list: a presence of the type unavailable from the sender's nick in the
-- room, with the status of a kick.
pub route_error-Removed :
    (room : Room) (ingress : IncomingPacket) (p : Participant)
    → OccupantsValid room
    → participants_find_by_jid room.participants.entries ingress.real_from ≡ some p
    → Ensures (Removed room p) (route_error room ingress)
unfolding route_error room_leave room_broadcast_presence
route_error-Removed room ingress p v e =
    let h = found_there room ingress p v e in
    let gone : Participant = record (kicked_sender p) { presence = none } in
    rw (route_error, e)
      (bind-Ensures _ (packet_cleanup ingress cleanup_from_to) _ (λ t. record {
        valid = leaves room p gone v h refl refl refl;
        left = delete-update room.next_id p gone room.participants.entries v.ids h refl;
        told =
            packets-to (set_participant room (kicked_sender p)) p (kicked_sender p) refl refl refl
              (set_participant room (kicked_sender p)).participants.entries
            ∙ jids-update p (kicked_sender p) room.participants.entries h refl;
        news =
            packets-AllTell (set_participant room (kicked_sender p)) p (kicked_sender p) refl refl
              refl (set_participant room (kicked_sender p)).participants.entries;
        rest = refl;
      }))
