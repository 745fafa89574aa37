-- ===== src/Room/Message/Cases.antt =====
-- The branches of `route_message`: what holds of the outcome of each holds of the whole.
use mukite.Common.{
  ℕ, ◌+◌, ◌≡◌, Bool-cases, Option-cases, true, false, not, ◌&&◌, inl, inr, some, [], ◌∷◌, ◌==◌, ltb,
  Outcome, ok, ◌>>=◌,
}
use mukite.Buffer.{bpt_null}
use mukite.Participant.{Participant, participants_find_by_jid, participants_find_by_nick}
use mukite.Packet.{IncomingPacket, cleanup_to_send, cleanup_from_to}
use mukite.Room.{Room, Routed, role_visitor, role_participant, set_participant}
use mukite.Room.Errors.{
  external_message, no_visitors_public, traffic_rate, recipient_not_in_room, no_visitors_pm, no_pm,
}
use mukite.Room.Message.{
  bounce, get_subject_node, with_subject, message_packet, route_groupchat, route_private,
  route_message,
}

-- The sender of a message to the room, at its time.
abbrev pub timed : Participant → ℕ → Participant
timed p ticks = record p { last_message_time = ticks }

pub groupchat-by :
    (P : Outcome Routed → Type 0) (room : Room) (ingress : IncomingPacket) (ticks limit : ℕ)
    (p : Participant)
    → P (bounce room ingress no_visitors_public)
    → P (bounce room ingress traffic_rate)
    → P (
        get_subject_node ingress.mem ingress.inner
        >>= with_subject (set_participant room (timed p ticks)) ingress (timed p ticks))
    → P (route_groupchat room ingress ticks limit p)
unfolding route_groupchat
groupchat-by P room ingress ticks limit p mute early sent =
    elim (Bool-cases (room.flags.moderated_room && ltb p.role role_participant)) [
      | inl visitor ↦ rw (route_groupchat, visitor) mute
      | inr loud ↦
          rw (route_groupchat, loud)
            (elim (Bool-cases (ltb ticks (limit + p.last_message_time))) [
              | inl soon ↦ rw soon early
              | inr late ↦ rw late sent
            ])
    ]

pub private-by :
    (P : Outcome Routed → Type 0) (room : Room) (ingress : IncomingPacket) (p : Participant)
    → P (bounce room ingress recipient_not_in_room)
    → P (bounce room ingress no_visitors_pm)
    → P (bounce room ingress no_pm)
    → ((r : Participant)
        → participants_find_by_nick room.participants.entries ingress.proxy_to.resource ≡ some r
        → P (
            cleanup_to_send ingress cleanup_from_to
            >>= (λ q. ok (record { room = room; sent = message_packet room q p r ∷ [] }))))
    → P (route_private room ingress p)
unfolding route_private
private-by P room ingress p missing mute closed sent =
    elim (Option-cases
      (participants_find_by_nick room.participants.entries ingress.proxy_to.resource)) [
        | inl nobody ↦ rw (route_private, nobody) missing
        | inr (r, e) ↦
            rw (route_private, e)
              (elim (Bool-cases (p.role == role_visitor && not room.flags.visitors_pm)) [
                | inl visitor ↦ rw visitor mute
                | inr may ↦ rw may (elim (Bool-cases (not room.flags.allow_pm)) [
                  | inl refused ↦ rw refused closed
                  | inr allowed ↦ rw allowed (sent r e)
                ])
              ])
      ]

pub message-by :
    (P : Outcome Routed → Type 0) (room : Room) (ingress : IncomingPacket) (ticks limit : ℕ)
    → P (bounce room ingress external_message)
    → ((p : Participant)
        → participants_find_by_jid room.participants.entries ingress.real_from ≡ some p
        → bpt_null ingress.proxy_to.resource ≡ true
        → P (route_groupchat room ingress ticks limit p))
    → ((p : Participant)
        → participants_find_by_jid room.participants.entries ingress.real_from ≡ some p
        → bpt_null ingress.proxy_to.resource ≡ false
        → P (route_private room ingress p))
    → P (route_message room ingress ticks limit)
unfolding route_message
message-by P room ingress ticks limit external to_room to_nick =
    elim (Option-cases (participants_find_by_jid room.participants.entries ingress.real_from)) [
      | inl outsider ↦ rw (route_message, outsider) external
      | inr (p, e) ↦
          rw (route_message, e)
            (elim (Bool-cases (bpt_null ingress.proxy_to.resource)) [
              | inl empty ↦ rw empty (to_room p e empty)
              | inr named ↦ rw named (to_nick p e named)
            ])
    ]
