-- ===== src/Room/Presence/Anonymity.antt =====
-- A newcomer of a semi-anonymous room.
use mukite.Room.Presence.Cases.{decide, newcomer-by}
use mukite.Common.{
  Ensures, bind-Ensures, bind-Ensures_by, ◌∙◌, ℕ, ◌≡◌, refl, subst, Bool-cases, Option-cases, true,
  false, inl, inr, ◌==◌,
}
use mukite.Buffer.{BufferPtr}
use mukite.Jid.{Jid}
use mukite.Acl.{AclConfig}
use mukite.Participant.{participants_find_by_jid, find_mode}
use mukite.Participant.Nodes.{find_by_jid-Holds}
use mukite.Packet.{
  IncomingPacket, packet_cleanup, cleanup_from_to, stanza_presence_unavailable, bytes_at,
}
use mukite.Room.{Room, room_join, room_presences_send, role_moderator}
use mukite.Room.Errors.{jid_malformed, occupant_conflict}
use mukite.Room.Valid.{OccupantsValid}
use mukite.Room.Presence.{
  Admission, admitted, refused, parse_muc_node, route_presence, newcomer, welcome, own_created,
  admission, finish,
}
use mukite.Room.Presence.Join.{own_created-participants}
use mukite.Room.Presence.Occupants.{room_join-Holds}
use mukite.Room.Presence.Admins.{finish-head, packet_cleanup-type}
use mukite.Room.Presence.Privacy.{ModeratorAt, AllShielded, presences_to}
use mukite.Room.Presence.Shielding.{
  ModeratorOf, SentShielded, finish-AllShielded, bounce-SentShielded, present-SentShielded,
}

own_created-anonymous :
    (room : Room) (j : Jid) → (own_created room j).flags.semi_anonymous ≡ room.flags.semi_anonymous
unfolding own_created
own_created-anonymous room j = elim (Bool-cases room.flags.just_created) [
  | inl e ↦ rw e refl
  | inr e ↦ rw e refl
]

joined-SentShielded :
    (room owned : Room) (p : IncomingPacket) (j : Jid) (nick : BufferPtr) (a : ℕ)
    → owned.participants ≡ room.participants
    → owned.flags.semi_anonymous ≡ true
    → (p.type == stanza_presence_unavailable) ≡ false
    → let r = room_join owned j nick a in
      SentShielded room (finish r.0 p r.1 true (room_presences_send r.0 r.1))
unfolding room_join
joined-SentShielded room owned p j nick a same anonymous here =
    let r = room_join owned j nick a in
    let sent = room_presences_send r.0 r.1 in
    let (o, w, e) = finish-head r.0 p r.1 owned.participants.entries sent here refl in
    let after = (finish r.0 p r.1 true sent).room.participants.entries in
    let head_sees : (r.1.role ≡ role_moderator) → ModeratorAt after r.1.jid =
      λ m. rw e (inl (w.jid, w.role ∙ m)) in
    finish-AllShielded r.0 p r.1 true sent _ anonymous (room_join-Holds owned j nick a)
      (λ k m. elim m [
        | inl (at, rank) ↦ inr (subst (ModeratorAt after) at (head_sees rank))
        | inr others ↦ inl (rw (← same) others)
      ])
      (presences_to r.0 r.1 _ anonymous (λ m. inr (head_sees m)))

welcome-SentShielded :
    (room owned : Room) (ingress : IncomingPacket) (a : ℕ)
    → owned.participants ≡ room.participants
    → owned.flags.semi_anonymous ≡ true
    → (ingress.type == stanza_presence_unavailable) ≡ false
    → Ensures (SentShielded room) (welcome owned ingress a)
unfolding welcome
welcome-SentShielded room owned ingress a same anonymous here =
    bind-Ensures_by _ (packet_cleanup ingress cleanup_from_to) _ (λ p e.
      joined-SentShielded room owned p ingress.real_from ingress.proxy_to.resource a same anonymous
        (rw (packet_cleanup-type ingress p e) here))

decided-SentShielded :
    (room owned : Room) (ingress : IncomingPacket) (d : Admission)
    → owned.participants ≡ room.participants
    → owned.flags.semi_anonymous ≡ true
    → (ingress.type == stanza_presence_unavailable) ≡ false
    → Ensures (SentShielded room) (decide owned ingress d)
decided-SentShielded room owned ingress (admitted a) same anonymous here =
    welcome-SentShielded room owned ingress a same anonymous here
decided-SentShielded room owned ingress (refused e) same anonymous here =
    bounce-SentShielded room owned ingress e

newcomer-SentShielded :
    (room : Room) (ingress : IncomingPacket) (acl : AclConfig) (given : BufferPtr)
    → room.flags.semi_anonymous ≡ true
    → Ensures (SentShielded room) (newcomer room ingress acl given)
newcomer-SentShielded room ingress acl given anonymous =
    let owned = own_created room ingress.real_from in
    newcomer-by (Ensures (SentShielded room)) room ingress acl given tt
      (bounce-SentShielded room room ingress jid_malformed)
      (bounce-SentShielded room room ingress occupant_conflict)
      (λ here free. bind-Ensures _ (admission owned acl ingress.real_from given) _ (λ d.
        decided-SentShielded room owned ingress d (own_created-participants room ingress.real_from)
          (own_created-anonymous room ingress.real_from ∙ anonymous) here))

-- In a semi-anonymous room, every packet that `route_presence` sends names no real JID, or goes to the JID
-- of a participant who is a moderator of the room before the call or after it. The occupants'
-- invariant is assumed.
pub route_presence-AllShielded :
    (room : Room) (ingress : IncomingPacket) (acl : AclConfig)
    → OccupantsValid room
    → room.flags.semi_anonymous ≡ true
    → Ensures (λ l. AllShielded (ModeratorOf room l.room) l.sent) (route_presence room ingress acl)
unfolding route_presence participants_find_by_jid
route_presence-AllShielded room ingress acl v anonymous =
    bind-Ensures _ (parse_muc_node ingress.mem ingress.muc) _ (λ given.
      elim (Option-cases (participants_find_by_jid room.participants.entries ingress.real_from)) [
        | inl new ↦
            rw new (newcomer-SentShielded room ingress acl (bytes_at ingress.mem given) anonymous)
        | inr (sender, e) ↦ rw e (
            present-SentShielded room ingress sender anonymous (
              find_by_jid-Holds room.next_id room.participants.entries ingress.real_from
                (find_mode ingress.real_from) v.ids e))
      ])
