-- ===== src/Room/Message/Private.antt =====
-- To whom `route_message` sends a message to a nick.
use mukite.Room.Message.Cases.{private-by, message-by}
use mukite.Common.{
  ◌∙◌, sym, true, false, ◌≡◌, Ensures, bind-Ensures, Ensures-map, ℕ, refl, ◌⊎◌, inl, inr, some, [],
  ◌∷◌, Outcome, ok, fault, ◌>>=◌,
}
use mukite.Buffer.{bpt_null}
use mukite.Participant.{Participant, participants_find_by_jid, participants_find_by_nick}
use mukite.Packet.{
  IncomingPacket, BuilderPacket, cleanup_to_send, cleanup_from_to, worker_bounce, bytes_at,
  cleanup_bounce, error, stanza_error, empty_packet, stanza_message,
}
use mukite.Room.{Room, Routed}
use mukite.Room.Errors.{
  RoomError, error_definitions, external_message, recipient_not_in_room, no_pm, no_visitors_pm,
}
use mukite.Room.Message.{bounce, route_private, route_message, message_packet}

-- One packet is sent, an error, and the room is left as it is.
pub record Bounced (room : Room) (l : Routed) : Type 0 where
  pub packet : BuilderPacket
  pub same_room : l.room ≡ room
  pub sent : l.sent ≡ packet ∷ []
  pub type : packet.type ≡ stanza_error

pub bounce-Bounced :
    (room : Room) (ingress : IncomingPacket) (e : RoomError)
    → Ensures (Bounced room) (bounce room ingress e)
unfolding bounce worker_bounce
bounce-Bounced room ingress e = returned (cleanup_to_send ingress cleanup_bounce)
  where
    returned :
        (cleaned : Outcome IncomingPacket)
        → Ensures (Bounced room) (
            (cleaned >>= (λ p. ok (record empty_packet {
              name = p.name;
              type = stanza_error;
              from_node = room.node;
              header = bytes_at p.mem p.header;
              user_data = bytes_at p.mem p.inner;
              sys_data = error (error_definitions e);
            })))
            >>= (λ p. ok (record { room = room; sent = p ∷ [] })))
    returned (ok p) = record { packet = _; same_room = refl; sent = refl; type = refl }
    returned (fault f) = tt

-- One packet is sent, to the participant who carries the nick, from the nick of the sender.
pub record Delivered (room : Room) (ingress : IncomingPacket) (l : Routed) : Type 0 where
  pub sender : Participant
  pub receiver : Participant
  pub packet : BuilderPacket
  pub from_sender :
      participants_find_by_jid room.participants.entries ingress.real_from ≡ some sender
  pub to_receiver :
      participants_find_by_nick room.participants.entries ingress.proxy_to.resource ≡ some receiver
  pub same_room : l.room ≡ room
  pub sent : l.sent ≡ packet ∷ []
  pub name : packet.name ≡ stanza_message
  pub to : packet.to ≡ receiver.jid
  pub from_nick : packet.from_nick ≡ sender.nick

abbrev BouncedOrDelivered : Room → IncomingPacket → Outcome Routed → Type 0
BouncedOrDelivered room ingress = Ensures (λ l. Bounced room l ⊎ Delivered room ingress l)

bounce-BouncedOrDelivered :
    (room : Room) (ingress : IncomingPacket) (e : RoomError)
    → BouncedOrDelivered room ingress (bounce room ingress e)
bounce-BouncedOrDelivered room ingress e =
    Ensures-map _ _ (bounce room ingress e) (λ l. inl) (bounce-Bounced room ingress e)

private-BouncedOrDelivered :
    (room : Room) (ingress : IncomingPacket) (s : Participant)
    → participants_find_by_jid room.participants.entries ingress.real_from ≡ some s
    → BouncedOrDelivered room ingress (route_private room ingress s)
unfolding message_packet
private-BouncedOrDelivered room ingress s from =
    private-by (BouncedOrDelivered room ingress) room ingress s
      (bounce-BouncedOrDelivered room ingress recipient_not_in_room)
      (bounce-BouncedOrDelivered room ingress no_visitors_pm)
      (bounce-BouncedOrDelivered room ingress no_pm)
      (λ r e. bind-Ensures _ (cleanup_to_send ingress cleanup_from_to) _ (λ q. inr (record {
        sender = s;
        receiver = r;
        packet = message_packet room q s r;
        from_sender = from;
        to_receiver = e;
        same_room = refl;
        sent = refl;
        name = refl;
        to = refl;
        from_nick = refl;
      })))

-- A message to a nick that does not fault leaves the room as it is and sends one packet: an error, or
-- the message, which goes to the participant who carries the nick, from the nick of the participant
-- who has the sender's JID.
pub route_message-private :
    (room : Room) (ingress : IncomingPacket) (ticks limit : ℕ)
    → bpt_null ingress.proxy_to.resource ≡ false
    → Ensures
        (λ l. Bounced room l ⊎ Delivered room ingress l)
        (route_message room ingress ticks limit)
route_message-private room ingress ticks limit nick =
    message-by (BouncedOrDelivered room ingress) room ingress ticks limit
      (bounce-BouncedOrDelivered room ingress external_message)
      (λ s e to_room. absurd (true-false (sym to_room ∙ nick)))
      (λ s e to_nick. private-BouncedOrDelivered room ingress s e)
  where
    true-false : true ≡ false → ⊥
    true-false e = cc
