-- ===== src/Room/Presence/Admins.antt =====
-- What `route_presence` does for a newcomer who administers the component's rooms.
use mukite.Common.{
  ◌+◌, ◌≡◌, refl, ◌≤◌, ◌≢◌, Bool-cases, true, false, inl, inr, Option, none, List, ◌∷◌, arith, ◌==◌,
  leb, ltb, ◌||◌, ok,
}
use mukite.Buffer.{BufferPtr, bpt_null, bpt_size, contents}
use mukite.Jid.{jid_set, jid_full, max_jid_part_size}
use mukite.Acl.{AclConfig, acl_role, acl_muc_admin}
use mukite.Xmlfsm.{Span}
use mukite.Participant.{
  Participant, participant_init, participant_set_nick, update, participants_find_by_jid,
  participants_find_by_nick,
}
use mukite.Affiliation.{affil_owner}
use mukite.Packet.{
  IncomingPacket, BuilderPacket, bytes_at, packet_cleanup, blank_attr, cleanup_from_to,
  stanza_presence_unavailable,
}
use mukite.Room.{
  Room, Routed, room_join, room_role_for_affiliation, room_presences_send, role_moderator,
  role_visitor,
}
use mukite.Room.Valid.{nick_set}
use mukite.Room.Presence.{
  parse_muc_node, route_presence, newcomer, welcome, own_created, admission, finish,
  cached_presence,
}
use mukite.Room.Presence.Join.{own_created-participants}

-- The stanza's type is not changed by blanking its attributes.
pub packet_cleanup-type :
    (ingress p : IncomingPacket)
    → packet_cleanup ingress cleanup_from_to ≡ ok p
    → p.type ≡ ingress.type
unfolding packet_cleanup blank_attr
packet_cleanup-type ingress p e = ground arith

-- The newcomer stands at the head of the list as an owner and a moderator.
pub record JoinedAsOwner (room : Room) (ingress : IncomingPacket) (l : Routed) : Type 0 where
  pub occupant : Participant
  pub listed : l.room.participants.entries ≡ occupant ∷ room.participants.entries
  pub counted : l.room.participants.size ≡ room.participants.size + 1
  pub affiliation : occupant.affiliation ≡ affil_owner
  pub role : occupant.role ≡ role_moderator
  pub jid : occupant.jid ≡ jid_set ingress.real_from jid_full
  pub nick : contents occupant.nick ≡ contents ingress.proxy_to.resource
  pub settled : l.room.flags.just_created ≡ false

-- The presence of a participant is written, and nothing else of it.
pub record Written (q o : Participant) : Type 0 where
  pub id : o.id ≡ q.id
  pub affiliation : o.affiliation ≡ q.affiliation
  pub role : o.role ≡ q.role
  pub jid : o.jid ≡ q.jid
  pub nick : o.nick ≡ q.nick

presence-Written : (q : Participant) (b : BufferPtr) → Written q (record q { presence = b })
presence-Written q b = record {
  id = refl;
  affiliation = refl;
  role = refl;
  jid = refl;
  nick = refl;
}

update-head :
    (q o : Participant) (rest : List Participant) → update q.id (λ _. o) (q ∷ rest) ≡ o ∷ rest
unfolding update
update-head q o rest = ground arith

-- The end of the function for a sender at the head of the list whose presence is not unavailable.
pub finish-head :
    (room : Room) (p : IncomingPacket) (q : Participant) (rest : List Participant)
    (sent : List BuilderPacket)
    → (p.type == stanza_presence_unavailable) ≡ false
    → room.participants.entries ≡ q ∷ rest
    → (o : Participant) × Written q o
      × ((finish room p q true sent).room.participants.entries ≡ o ∷ rest)
unfolding finish
finish-head room p q rest sent here e =
    let shown : Participant = record q { presence = cached_presence (bytes_at p.mem p.inner) } in
    let mute : Participant = record q { presence = cached_presence q.presence } in
    elim (Bool-cases (ltb role_visitor q.role || room.flags.visitor_presence)) [
      | inl c ↦ (shown, presence-Written q _, rw (here, c, e) (update-head q shown rest))
      | inr c ↦ (mute, presence-Written q _, rw (here, c, e) (update-head q mute rest))
    ]

finish-size :
    (room : Room) (p : IncomingPacket) (q : Participant) (sent : List BuilderPacket)
    → (p.type == stanza_presence_unavailable) ≡ false
    → let l = finish room p q true sent in
      (l.room.participants.size ≡ room.participants.size) × (l.room.flags.just_created ≡ false)
unfolding finish
finish-size room p q sent here = rw here (refl, refl)

joined_as_owner :
    (room owned : Room) (ingress p : IncomingPacket)
    → owned.participants ≡ room.participants
    → (p.type == stanza_presence_unavailable) ≡ false
    → bpt_size ingress.proxy_to.resource ≤ max_jid_part_size
    → let r = room_join owned ingress.real_from ingress.proxy_to.resource affil_owner in
      JoinedAsOwner room ingress (finish r.0 p r.1 true (room_presences_send r.0 r.1))
unfolding room_join room_role_for_affiliation participant_init participant_set_nick
joined_as_owner room owned ingress p same here fits =
    let r = room_join owned ingress.real_from ingress.proxy_to.resource affil_owner in
    let sent = room_presences_send r.0 r.1 in
    let (o, w, e) = finish-head r.0 p r.1 owned.participants.entries sent here refl in
    let (size, flag) = finish-size r.0 p r.1 sent here in
    record {
      occupant = o;
      listed = rw (← same) e;
      counted = rw (← same) size;
      affiliation = w.affiliation;
      role = w.role;
      jid = w.jid;
      nick = rw w.nick (nick_set ingress.proxy_to.resource fits);
      settled = flag;
    }

-- A sender who is not in the room, whose rank is ACL_MUC_ADMIN at least, and who asks with a presence that
-- is not unavailable for a nick of 1 to 1023 bytes that nobody in the room carries joins the room, whatever
-- its limits, password and lists say: the call returns, and the newcomer stands at the head of the
-- occupants, who are otherwise as before, as an owner and a moderator under that nick. It
-- is assumed that the MUC node of the stanza and its attributes can be read and blanked. A part between
-- the stanza's tags that ends before it starts counts as empty here.
pub route_presence-admin_joins :
    (room : Room) (ingress p : IncomingPacket) (acl : AclConfig) (given : Option Span)
    → parse_muc_node ingress.mem ingress.muc ≡ ok given
    → packet_cleanup ingress cleanup_from_to ≡ ok p
    → participants_find_by_jid room.participants.entries ingress.real_from ≡ none
    → acl_muc_admin ≤ acl_role acl ingress.real_from
    → ingress.type ≢ stanza_presence_unavailable
    → bpt_null ingress.proxy_to.resource ≡ false
    → bpt_size ingress.proxy_to.resource ≤ max_jid_part_size
    → participants_find_by_nick room.participants.entries ingress.proxy_to.resource ≡ none
    → (l : Routed) × (route_presence room ingress acl ≡ ok l) × JoinedAsOwner room ingress l
unfolding route_presence newcomer welcome admission
route_presence-admin_joins room ingress p acl given muc cleaned new rank type named fits free =
    let owned = own_created room ingress.real_from in
    let r = room_join owned ingress.real_from ingress.proxy_to.resource affil_owner in
    let here : (ingress.type == stanza_presence_unavailable) ≡ false = ground arith in
    let high : leb acl_muc_admin (acl_role acl ingress.real_from) ≡ true = ground arith in
    (
      finish r.0 p r.1 true (room_presences_send r.0 r.1),
      rw (muc, new, here, named, free, high, cleaned) refl,
      joined_as_owner room owned ingress p (own_created-participants room ingress.real_from)
          (rw (packet_cleanup-type ingress p cleaned) here) fits,
    )
