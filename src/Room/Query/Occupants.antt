-- ===== src/Room/Query/Occupants.antt =====
-- The occupants' invariant after `room_route`.
use mukite.Common.{
  ℕ, ◌≡◌, refl, false, not, ◌&&◌, inl, inr, Option, none, some, List, [], ◌∷◌, ◌++◌, arith, ◌==◌,
  ◌≤◌, ltb, if-cases, Bool-cases, Option-cases, Outcome, ok, fault, ◌>>=◌, Ensures, bind-Ensures,
  Ensures-map,
}
use mukite.Buffer.{bpt_null, bpt_size}
use mukite.Jid.{max_jid_part_size}
use mukite.Jid.Compare.{NodeFilled}
use mukite.Acl.{AclConfig}
use mukite.Participant.{Participant, participants_find_by_jid, participants_find_by_nick}
use mukite.Participant.Nodes.{Below, Holds, Holds-lt}
use mukite.Affiliation.{affil_outcast, affil_member}
use mukite.Packet.{
  StatusCodes, IncomingPacket, packet_cleanup, cleanup_to_send, cleanup_from_to, cleanup_switch,
  stanza_iq, stanza_error, stanza_message, stanza_presence,
}
use mukite.Room.{Room, RoomFlags, Routed, role_none}
use mukite.Room.Errors.{recipient_not_in_room, external_iq, iq_prohibited}
use mukite.Room.Valid.{OccupantsValid}
use mukite.Room.Presence.Present.{Keeps, bounce-Keeps, written, leaves}
use mukite.Room.Query.{
  Handled, reply, refuse, handle_query, finish_query, query_of, query_room, query_occupant, pass_on,
  asks_vcard, route_iq, room_route, query_reply,
}
use mukite.Room.Query.Affected.{at_address, verdict, shown_last, announce_one, announce}
use mukite.Room.Query.Alike.{Same, self}
use mukite.Room.Query.Replies.{HandledValid, handle_query-Valid}
use mukite.Room.Message.Occupants.{route_message-OccupantsValid}
use mukite.Room.Presence.Occupants.{route_presence-OccupantsValid}
use mukite.Room.Kick.{route_error}
use mukite.Room.Kick.Removal.{route_error-Removed}

at_address-Holds :
    (n id : ℕ) (ps : List Participant) (p : Participant)
    → Below n ps
    → at_address id ps ≡ some p
    → Holds p ps
unfolding at_address
at_address-Holds n id [] p b e = cc
at_address-Holds n id (q ∷ ps) p b e = elim (Bool-cases (q.id == id)) [
  | inl here ↦ inl (ground arith)
  | inr later ↦
      let h : Holds p ps = at_address-Holds q.id id ps p b.1 (ground arith) in
      inr (Holds-lt p q.id ps b.1 h, h)
]

verdict-Same : (flags : RoomFlags) (p : Participant) → Same p (verdict flags p).0
unfolding verdict
verdict-Same flags p =
    let s : Same p (record p { role = role_none }) = record {
      id = refl;
      jid = refl;
      nick = refl;
    } in
    let P = λ (r : Participant × StatusCodes). Same p r.0 in
    if-cases P flags.destroyed s (
      if-cases P (p.affiliation == affil_outcast) s (
        if-cases P (flags.members_only && ltb p.affiliation affil_member) s
          (if-cases P (p.role == role_none) (self p) (self p))))

shown_last-Same : (p q : Participant) → Same p q → Same p (shown_last q)
shown_last-Same p q s =
    let t : Same p (record q { included = false }) = record {
      id = s.id;
      jid = s.jid;
      nick = s.nick;
    } in
    if-cases (Same p) (q.role == role_none) (record { id = s.id; jid = s.jid; nick = s.nick }) t

announce_one-Valid :
    (room : Room) (p : Participant)
    → OccupantsValid room
    → Holds p room.participants.entries
    → OccupantsValid (announce_one room p).room
unfolding announce_one
announce_one-Valid room p v h =
    let s = shown_last-Same p _ (verdict-Same room.flags p) in
    let cleared : Participant = record (shown_last (verdict room.flags p).0) {
      reason_node = none;
    } in
    if-cases OccupantsValid ((shown_last (verdict room.flags p).0).role == role_none)
      (leaves room p cleared v h s.id s.jid s.nick) (written room p cleared v h s.id s.jid s.nick).0

announce-Valid : (ids : List ℕ) (room : Room) → OccupantsValid room → Keeps (announce ids room)
unfolding announce
announce-Valid [] room v = v
announce-Valid (id ∷ ids) room v = elim (Option-cases (at_address id room.participants.entries)) [
  | inl gone ↦ rw (announce, gone) tt
  | inr (p, e) ↦
      rw (announce, e)
        (after (announce_one room p) _ (
          announce-Valid ids (announce_one room p).room (
            announce_one-Valid room p v
              (at_address-Holds room.next_id id room.participants.entries p v.ids e))))
]
  where
    after :
        (now : Routed) (m : Outcome Routed)
        → Keeps m
        → Keeps (m >>= λ later. ok (record { room = later.room; sent = now.sent ++ later.sent }))
    after now (ok r) w = w
    after now (fault f) w = tt

finish_query-Valid :
    (ingress : IncomingPacket) (m : Outcome Handled)
    → Ensures HandledValid m
    → Keeps (m >>= finish_query ingress)
unfolding finish_query
finish_query-Valid ingress (fault f) v = tt
finish_query-Valid ingress (ok (refuse room e)) v = bounce-Keeps room ingress e v
finish_query-Valid ingress (ok (reply t data_of room affected)) v =
    bind-Ensures _ (packet_cleanup ingress cleanup_switch) _
      (λ p. told _ (announce-Valid affected room v))
  where
    told :
        (m : Outcome Routed)
        → Keeps m
        → Keeps (m >>= λ r. ok (record { room = r.room; sent = query_reply t data_of ∷ r.sent }))
    told (ok r) w = w
    told (fault f) w = tt

module _ (room : Room) (ingress : IncomingPacket) (v : OccupantsValid room) where
  pass_on-Valid : (sender receiver : Participant) → Keeps (pass_on room ingress sender receiver)
  unfolding pass_on
  pass_on-Valid sender receiver =
      bind-Ensures _ (cleanup_to_send ingress cleanup_from_to) _
        (λ p. bind-Ensures _ (asks_vcard p) _ (λ vcard. v))

  query_occupant-Valid : (sender : Option Participant) → Keeps (query_occupant room ingress sender)
  unfolding query_occupant
  query_occupant-Valid none = bounce-Keeps room ingress external_iq v
  query_occupant-Valid (some sender) =
      if-cases Keeps (not room.flags.iq_proxy) (bounce-Keeps room ingress iq_prohibited v)
        (elim (Option-cases
          (participants_find_by_nick room.participants.entries ingress.proxy_to.resource)) [
            | inl missing ↦ rw missing (bounce-Keeps room ingress recipient_not_in_room v)
            | inr (receiver, e) ↦ rw e (pass_on-Valid sender receiver)
          ])

  route_iq-OccupantsValid :
      (acl : AclConfig) → Ensures (λ r. OccupantsValid r.room) (route_iq room ingress acl)
  unfolding route_iq query_room
  route_iq-OccupantsValid acl =
      let sender = participants_find_by_jid room.participants.entries ingress.real_from in
      if-cases Keeps (not (bpt_null ingress.proxy_to.resource)) (query_occupant-Valid sender) (
        bind-Ensures _ (query_of ingress.mem ingress.inner) _ (λ q.
          finish_query-Valid ingress (handle_query acl room ingress sender q)
            (handle_query-Valid room v acl ingress sender q)))

  route_error-Valid : Keeps (route_error room ingress)
  unfolding route_error
  route_error-Valid =
      elim (Option-cases (participants_find_by_jid room.participants.entries ingress.real_from)) [
        | inl missing ↦ rw (route_error, missing) v
        | inr (p, e) ↦
            Ensures-map _ _ (route_error room ingress) (λ r removed. removed.valid)
              (route_error-Removed room ingress p v e)
      ]

-- Every stanza that a room is given keeps the occupants' invariant, unless it faults: addresses, nicks and
-- full JIDs stay distinct and the counter stays the number of occupants, if the sender's node and
-- resource are not empty and the nick that is asked for is at most 1023 bytes long.
pub room_route-OccupantsValid :
    (room : Room) (ingress : IncomingPacket) (acl : AclConfig) (ticks limit : ℕ)
    → OccupantsValid room
    → NodeFilled ingress.real_from.node
    → NodeFilled ingress.real_from.resource
    → bpt_size ingress.proxy_to.resource ≤ max_jid_part_size
    → Ensures (λ r. OccupantsValid r.room) (room_route room ingress acl ticks limit)
unfolding room_route
room_route-OccupantsValid room ingress acl ticks limit v node resource fits =
    if-cases Keeps (ingress.type == stanza_error && not (ingress.name == stanza_iq))
      (route_error-Valid room ingress v)
      (if-cases Keeps (ingress.name == stanza_message)
        (route_message-OccupantsValid room ingress ticks limit v)
        (if-cases Keeps (ingress.name == stanza_presence)
          (route_presence-OccupantsValid room ingress acl v node resource fits)
          (if-cases Keeps (ingress.name == stanza_iq) (route_iq-OccupantsValid room ingress v acl)
            v)))
