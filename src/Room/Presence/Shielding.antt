-- ===== src/Room/Presence/Shielding.antt =====
-- Who sees the JIDs in the packets of `route_presence` for a sender who is in a semi-anonymous room.
use mukite.Room.Presence.Cases.{present-by}
use mukite.Common.{
  Ensures, bind-Ensures, ◌∙◌, ◌≡◌, refl, sym, subst, ◌⊎◌, Bool, Bool-cases, true, false, inl, inr,
  none, List, [], ◌∷◌, arith, ◌==◌, ltb, ◌||◌, if◌then◌else◌, Outcome, ok, fault, ◌>>=◌,
}
use mukite.Buffer.{BufferPtr}
use mukite.Jid.{Jid}
use mukite.Participant.{Participant, update}
use mukite.Participant.Nodes.{Holds, update-Holds}
use mukite.Packet.{
  IncomingPacket, BuilderPacket, no_status, packet_cleanup, cleanup_to_send, cleanup_from_to,
  cleanup_bounce, error, stanza_error, empty_packet, worker_bounce, stanza_presence_unavailable,
  bytes_at,
}
use mukite.Room.{
  Room, Routed, room_broadcast_presence, room_subject_send, role_moderator, role_visitor, role_none,
  set_participant,
}
use mukite.Room.Errors.{RoomError, error_definitions, occupant_conflict}
use mukite.Room.Message.{bounce}
use mukite.Room.Presence.{finish, present, finish_cleaned, nick_status}
use mukite.Room.Presence.Present.{shown_if, shown_if-id, shown_if-jid}
use mukite.Room.Presence.Privacy.{
  ModeratorAt, AllShielded, broadcast_to, append-AllShielded, subject_to, update-ModeratorAt,
}

abbrev Sees : Room → (Jid → Type 0) → Type 0
Sees room may_see = (j : Jid) → ModeratorAt room.participants.entries j → may_see j

-- A write that makes nobody a moderator shows nobody more.
set_participant-Sees :
    (room : Room) (p q : Participant) (may_see : Jid → Type 0)
    → Holds p room.participants.entries
    → q.id ≡ p.id
    → q.jid ≡ p.jid
    → (q.role ≡ role_moderator → p.role ≡ role_moderator)
    → Sees room may_see
    → Sees (set_participant room q) may_see
set_participant-Sees room p q may_see h id jid role sees j m = sees j (
    update-ModeratorAt p q room.participants.entries j h jid role
      (subst (λ t. ModeratorAt (update t (λ _. q) room.participants.entries) j) id m))

shown_if-role : (c : Bool) (p : Participant) (b : BufferPtr) → (shown_if c p b).role ≡ p.role
shown_if-role true p b = refl
shown_if-role false p b = refl

pub finish-AllShielded :
    (room : Room) (ingress : IncomingPacket) (sender : Participant) (joined : Bool)
    (sent : List BuilderPacket) (may_see : Jid → Type 0)
    → room.flags.semi_anonymous ≡ true
    → Holds sender room.participants.entries
    → Sees room may_see
    → AllShielded may_see sent
    → AllShielded may_see (finish room ingress sender joined sent).sent
unfolding finish room_broadcast_presence
finish-AllShielded room ingress sender joined sent may_see anonymous h sees shielded =
    let c = ltb role_visitor sender.role || room.flags.visitor_presence in
    let b = bytes_at ingress.mem ingress.inner in
    let shown : Participant = shown_if c sender b in
    let gone : Participant = record shown { role = role_none } in
    elim (Bool-cases (ingress.type == stanza_presence_unavailable)) [
      | inl e ↦ rw e (
          append-AllShielded may_see sent _ shielded (
            broadcast_to (set_participant room gone) gone none no_status may_see _ anonymous (
              set_participant-Sees room sender gone may_see h (shown_if-id c sender b)
                (shown_if-jid c sender b) (λ never. absurd (omega (arith, never))) sees)))
      | inr e ↦ rw e (
          append-AllShielded may_see sent _ shielded (
            append-AllShielded may_see _ _
              (broadcast_to (set_participant room shown) shown none no_status may_see _ anonymous (
                set_participant-Sees room sender shown may_see h (shown_if-id c sender b)
                  (shown_if-jid c sender b) (λ m. sym (shown_if-role c sender b) ∙ m) sees))
              (subject_if joined shown)))
    ]
  where
    subject_if :
        (joined : Bool) (shown : Participant)
        → AllShielded may_see (if joined then room_subject_send room shown else [])
    subject_if true shown = subject_to room shown may_see
    subject_if false shown = tt

-- A moderator of the room before the call or after it.
abbrev pub ModeratorOf : Room → Room → Jid → Type 0
ModeratorOf before after j =
    ModeratorAt before.participants.entries j ⊎ ModeratorAt after.participants.entries j

abbrev pub SentShielded : Room → Routed → Type 0
SentShielded room l = AllShielded (ModeratorOf room l.room) l.sent

pub bounce-SentShielded :
    (room at : Room) (ingress : IncomingPacket) (e : RoomError)
    → Ensures (SentShielded room) (bounce at ingress e)
unfolding bounce worker_bounce
bounce-SentShielded room at ingress e = returned (cleanup_to_send ingress cleanup_bounce)
  where
    returned :
        (cleaned : Outcome IncomingPacket)
        → Ensures (SentShielded room) (
            (cleaned >>= (λ p. ok (record empty_packet {
              name = p.name;
              type = stanza_error;
              from_node = at.node;
              header = bytes_at p.mem p.header;
              user_data = bytes_at p.mem p.inner;
              sys_data = error (error_definitions e);
            })))
            >>= (λ p. ok (record { room = at; sent = p ∷ [] })))
    returned (ok p) = (tt, tt)
    returned (fault f) = tt

finish_cleaned-SentShielded :
    (room : Room) (ingress : IncomingPacket) (sender : Participant)
    → room.flags.semi_anonymous ≡ true
    → Holds sender room.participants.entries
    → Ensures (SentShielded room) (finish_cleaned room ingress sender)
unfolding finish_cleaned
finish_cleaned-SentShielded room ingress sender anonymous h =
    bind-Ensures _ (packet_cleanup ingress cleanup_from_to) _
      (λ p. finish-AllShielded room p sender false [] _ anonymous h (λ j. inl) tt)

renamed-SentShielded :
    (room : Room) (ingress : IncomingPacket) (p : Participant) (nick : BufferPtr)
    → room.flags.semi_anonymous ≡ true
    → Holds p room.participants.entries
    → let q : Participant = record p { nick = nick } in
      SentShielded room (
        finish
          (set_participant room q)
          ingress
          q
          false
          (room_broadcast_presence room p nick nick_status))
unfolding room_broadcast_presence
renamed-SentShielded room ingress p nick anonymous h =
    let q : Participant = record p { nick = nick } in
    finish-AllShielded (set_participant room q) ingress q false _ _ anonymous
      (update-Holds p q room.participants.entries refl h)
      (set_participant-Sees room p q _ h refl refl (λ m. m) (λ j. inl))
      (broadcast_to room p nick nick_status _ room.participants.entries anonymous (λ j. inl))

pub present-SentShielded :
    (room : Room) (ingress : IncomingPacket) (sender : Participant)
    → room.flags.semi_anonymous ≡ true
    → Holds sender room.participants.entries
    → Ensures (SentShielded room) (present room ingress sender)
present-SentShielded room ingress sender anonymous h =
    present-by (Ensures (SentShielded room)) room ingress sender
      (finish_cleaned-SentShielded room ingress sender anonymous h) tt
      (bounce-SentShielded room room ingress occupant_conflict)
      (λ free. renamed-SentShielded room ingress sender _ anonymous h)
