-- ===== src/Room/Presence/Cases.antt =====
-- The branches of `route_presence`: what holds of the outcome of each holds of the whole.
use mukite.Common.{
  ◌≡◌, Bool-cases, Option-cases, false, not, ◌&&◌, inl, inr, none, [], ◌==◌, leb, Outcome, ok,
  ◌>>=◌,
}
use mukite.Buffer.{BufferPtr, bpt_null, buffer_ptr_cpy}
use mukite.Acl.{AclConfig}
use mukite.Participant.{Participant, participants_find_by_nick}
use mukite.Packet.{IncomingPacket, stanza_presence_unavailable}
use mukite.Room.{Room, Routed, role_visitor, set_participant, room_broadcast_presence}
use mukite.Room.Errors.{jid_malformed, occupant_conflict}
use mukite.Room.Message.{bounce}
use mukite.Room.Presence.{
  Admission, admitted, refused, present, present_with_nick, finish_cleaned, finish, nick_status,
  newcomer, own_created, admission, welcome,
}

-- What follows the decision on a newcomer.
abbrev pub decide : Room → IncomingPacket → Admission → Outcome Routed
decide room ingress (admitted a) = welcome room ingress a
decide room ingress (refused e) = bounce room ingress e

-- What the branch of a free nick leaves.
abbrev pub renamed : Room → IncomingPacket → Participant → Routed
renamed room ingress sender =
    let nick = buffer_ptr_cpy ingress.proxy_to.resource in
    finish (set_participant room (record sender { nick = nick })) ingress
      (record sender { nick = nick }) false (room_broadcast_presence room sender nick nick_status)

pub present-by :
    (P : Outcome Routed → Type 0) (room : Room) (ingress : IncomingPacket) (sender : Participant)
    → P (finish_cleaned room ingress sender)
    → P (ok (record { room = room; sent = [] }))
    → P (bounce room ingress occupant_conflict)
    → (participants_find_by_nick room.participants.entries ingress.proxy_to.resource ≡ none
        → P (ok (renamed room ingress sender)))
    → P (present room ingress sender)
unfolding present present_with_nick
present-by P room ingress sender own mute taken free =
    elim (Bool-cases (
      not (ingress.type == stanza_presence_unavailable)
      && not (bpt_null ingress.proxy_to.resource))) [
        | inr bare ↦ rw (present, bare) own
        | inl nick ↦
            rw (present, nick)
              (elim (Option-cases
                (participants_find_by_nick room.participants.entries ingress.proxy_to.resource)) [
                  | inl unused ↦
                      rw (present_with_nick, unused)
                        (elim (Bool-cases
                          (leb sender.role role_visitor && not room.flags.visitor_presence)) [
                            | inl visitor ↦ rw visitor mute
                            | inr may ↦ rw may (free unused)
                          ])
                  | inr (receiver, e) ↦
                      rw (present_with_nick, e)
                        (elim (Bool-cases (sender.id == receiver.id)) [
                          | inl same ↦ rw same own
                          | inr other ↦ rw other taken
                        ])
                ])
      ]

pub newcomer-by :
    (P : Outcome Routed → Type 0) (room : Room) (ingress : IncomingPacket) (acl : AclConfig)
    (given : BufferPtr)
    → P (ok (record { room = room; sent = [] }))
    → P (bounce room ingress jid_malformed)
    → P (bounce room ingress occupant_conflict)
    → ((ingress.type == stanza_presence_unavailable) ≡ false
        → participants_find_by_nick room.participants.entries ingress.proxy_to.resource ≡ none
        → P (
            admission (own_created room ingress.real_from) acl ingress.real_from given
            >>= decide (own_created room ingress.real_from) ingress))
    → P (newcomer room ingress acl given)
unfolding newcomer
newcomer-by P room ingress acl given absent nameless taken asks =
    elim (Bool-cases (ingress.type == stanza_presence_unavailable)) [
      | inl gone ↦ rw (newcomer, gone) absent
      | inr here ↦
          rw (newcomer, here)
            (elim (Bool-cases (bpt_null ingress.proxy_to.resource)) [
              | inl bare ↦ rw bare nameless
              | inr named ↦
                  rw named
                    (elim (Option-cases (
                      participants_find_by_nick room.participants.entries
                        ingress.proxy_to.resource)) [
                          | inr (other, e) ↦ rw e taken
                          | inl free ↦ rw free (asks here free)
                        ])
            ])
    ]
