-- ===== src/Room/Presence.antt =====
-- `route_presence` of room.c, with `parse_muc_node`.
pub mod Privacy
pub mod Shielding
pub mod Anonymity
pub mod Fuel
pub mod Ends
pub mod Join
pub mod Cases
pub mod Present
pub mod Admins
pub mod Occupants
use mukite.Common.{
  ℕ, zero, suc, ◌+◌, ◌-◌, Bool, true, false, not, ◌&&◌, ◌||◌, Option, none, some, List, [], ◌∷◌,
  ◌++◌, Bytes, lit, ◌==◌, ltb, leb, if◌then◌else◌, length, Outcome, ok, fault, out_of_fuel, ◌>>=◌,
  bytes_eq,
}
use mukite.Buffer.{BufferPtr, bpt_null, bpt_blank, bpt_size, bpt_eq, contents, buffer_ptr_cpy}
use mukite.Jid.{Jid}
use mukite.Acl.{AclConfig, acl_role, acl_muc_admin}
use mukite.Xmlfsm.{Span, slice, xmlfsm_node_name, xmlfsm_skip_attrs, xmlfsm_next_sibling}
use mukite.Participant.{Participant, participants_find_by_jid, participants_find_by_nick}
use mukite.Affiliation.{
  affil_outcast, affil_member, affil_owner, affiliationss_add, affiliationss_get_by_jid,
  affiliations_by_cast,
}
use mukite.Packet.{
  IncomingPacket, BuilderPacket, bytes_at, packet_cleanup, cleanup_from_to,
  stanza_presence_unavailable, StatusCodes, no_status,
}
use mukite.Room.{
  Room, Routed, role_none, role_visitor, reasonable_raw_limit, room_join, room_leave,
  set_participant, room_broadcast_presence, room_presences_send, room_subject_send,
}
use mukite.Room.Errors.{
  RoomError, occupant_conflict, jid_malformed, occupants_limit, banned, password, members_only,
}
use mukite.Room.Message.{bounce}

-- The loop of `parse_muc_node` over the siblings, for its password: the last <password> node that is
-- not empty, without its closing tag. The attributes of a <history>
-- node are read, and their numbers are never used.
unfoldable pub muc_password : ℕ → Bytes → Span → Option Span → Outcome (Option Span)
unfolding xmlfsm_next_sibling xmlfsm_skip_attrs bytes_eq
muc_password zero mem b found = fault out_of_fuel
muc_password (suc fuel) mem b found = do
  sibling ← xmlfsm_next_sibling mem b
  elim sibling [
    | none ↦ ok found
    | some n ↦ elim (bytes_eq (lit "password") (slice mem n.node_name)) [
      | true ↦ do
        (open_tag, q) ← xmlfsm_skip_attrs mem n.node.start
        muc_password fuel mem n.buffer
            (if open_tag then some (record { start = q; stop = n.node.stop - 11 }) else found)
      | false ↦ elim (bytes_eq (lit "history") (slice mem n.node_name)) [
        | true ↦ do
          (open_tag, q) ← xmlfsm_skip_attrs mem n.node.start
          muc_password fuel mem n.buffer found
        | false ↦ muc_password fuel mem n.buffer found
      ]
    ]
  ]

-- `parse_muc_node`, for the password: null without a node, or where the node is empty.
unfoldable pub parse_muc_node : Bytes → Option Span → Outcome (Option Span)
unfolding muc_password xmlfsm_node_name xmlfsm_skip_attrs
parse_muc_node mem none = ok none
parse_muc_node mem (some s) = if bpt_blank (bytes_at mem (some s)) then ok none else do
  (name, p) ← xmlfsm_node_name mem s
  (open_tag, q) ← xmlfsm_skip_attrs mem p
  (if open_tag
      then muc_password (length mem + 1) mem (record { start = q; stop = s.stop }) none
      else ok none)

-- What the newcomer's admission decides: an affiliation, or an error.
pub data Admission : Type 0 where
  admitted : ℕ → Admission
  refused : RoomError → Admission

-- A room's password is set, and the one given is null or another.
unfoldable pub wrong_password : BufferPtr → BufferPtr → Bool
unfolding bytes_eq
wrong_password none given = false
wrong_password (some secret) none = true
wrong_password (some secret) (some given) = not (bytes_eq secret given)

-- The guards behind the search for the affiliation.
unfoldable pub admit_affiliation : Room → BufferPtr → ℕ → Admission
unfolding wrong_password
admit_affiliation room given a =
    if a == affil_outcast
    then refused banned
    else if (ltb a affil_owner && room.flags.password_protected_room)
        && wrong_password room.password given
    then refused password
    else if room.flags.members_only && ltb a affil_member
    then refused members_only
    else admitted a

-- From `acl_role` on: which affiliation a newcomer gets.
unfoldable pub admission : Room → AclConfig → Jid → BufferPtr → Outcome Admission
unfolding admit_affiliation affiliationss_get_by_jid
admission room acl j given =
    if leb acl_muc_admin (acl_role acl j)
    then ok (admitted affil_owner)
    else if leb room.participants.max_size room.participants.size
    then ok (refused occupants_limit)
    else do
      a ← affiliationss_get_by_jid (affiliations_by_cast room.affiliations) acl j
      ok (admit_affiliation room given a)

-- The presence that is kept for newcomers.
unfoldable pub cached_presence : BufferPtr → BufferPtr
cached_presence p =
    if leb (bpt_size p) reasonable_raw_limit
    then if bpt_blank p then none else some (contents p)
    else none

-- `room->flags &= ~MUC_FLAG_JUST_CREATED`
abbrev pub clear_created : Room → Room
clear_created r = record r { flags = record r.flags { just_created = false } }

-- The end of the function, for a sender who is in the room: `joined` is `just_joined`, and `sent`
-- holds the packets sent so far.
unfoldable pub finish : Room → IncomingPacket → Participant → Bool → List BuilderPacket → Routed
unfolding room_broadcast_presence room_leave room_subject_send cached_presence
finish room ingress sender joined sent =
    let shown : Participant =
      if ltb role_visitor sender.role || room.flags.visitor_presence
      then record sender { presence = bytes_at ingress.mem ingress.inner }
      else sender in
    let gone : Participant = record shown { role = role_none } in
    if ingress.type == stanza_presence_unavailable
    then record {
      room =
          clear_created
            (room_leave (set_participant room (record gone { presence = none })) sender.id);
      sent = sent ++ room_broadcast_presence (set_participant room gone) gone none no_status;
    }
    else record {
      room =
          clear_created
            (set_participant room (record shown { presence = cached_presence shown.presence }));
      sent =
          sent
          ++ (room_broadcast_presence (set_participant room shown) shown none no_status
              ++ (if joined then room_subject_send room shown else []));
    }

-- STATUS_NICKNAME_CHANGED
abbrev pub nick_status : StatusCodes
nick_status = record no_status { nickname_changed = true }

unfoldable pub finish_cleaned : Room → IncomingPacket → Participant → Outcome Routed
unfolding finish
finish_cleaned room ingress sender = do
  p ← packet_cleanup ingress cleanup_from_to
  ok (finish room p sender false [])

-- The sender is in the room and asks for a nick: their own, a free one, or a taken one.
unfoldable pub present_with_nick : Room → IncomingPacket → Participant → Outcome Routed
unfolding finish_cleaned bounce room_broadcast_presence buffer_ptr_cpy
present_with_nick room ingress sender =
    elim (participants_find_by_nick room.participants.entries ingress.proxy_to.resource) [
      | some receiver ↦
          if sender.id == receiver.id
          then finish_cleaned room ingress sender
          else bounce room ingress occupant_conflict
      | none ↦
          if leb sender.role role_visitor && not room.flags.visitor_presence
          then ok (record { room = room; sent = [] })
          else (let nick : BufferPtr = buffer_ptr_cpy ingress.proxy_to.resource in
              let renamed : Participant = record sender { nick = nick } in
              ok (
                finish (set_participant room renamed) ingress renamed false
                  (room_broadcast_presence room sender nick nick_status)))
    ]

-- The sender is in the room.
unfoldable pub present : Room → IncomingPacket → Participant → Outcome Routed
unfolding present_with_nick finish_cleaned
present room ingress sender =
    if not (ingress.type == stanza_presence_unavailable) && not (bpt_null ingress.proxy_to.resource)
    then present_with_nick room ingress sender
    else finish_cleaned room ingress sender

-- The creator of a room becomes its owner.
unfoldable pub own_created : Room → Jid → Room
unfolding affiliationss_add
own_created room j =
    if room.flags.just_created
    then record room {
      affiliations = (affiliationss_add room.affiliations none affil_owner j none).0;
    }
    else room

-- A newcomer who is admitted joins and is told who is there.
unfoldable pub welcome : Room → IncomingPacket → ℕ → Outcome Routed
unfolding room_join room_presences_send finish
welcome room ingress a = do
  let (joined, sender) = room_join room ingress.real_from ingress.proxy_to.resource a
  p ← packet_cleanup ingress cleanup_from_to
  ok (finish joined p sender true (room_presences_send joined sender))

-- The sender is not in the room.
unfoldable pub newcomer : Room → IncomingPacket → AclConfig → BufferPtr → Outcome Routed
unfolding own_created admission welcome bounce
newcomer room ingress acl given =
    if ingress.type == stanza_presence_unavailable
    then ok (record { room = room; sent = [] })
    else if bpt_null ingress.proxy_to.resource
    then bounce room ingress jid_malformed
    else elim (participants_find_by_nick room.participants.entries ingress.proxy_to.resource) [
      | some other ↦ bounce room ingress occupant_conflict
      | none ↦ do
        let owned = own_created room ingress.real_from
        decision ← admission owned acl ingress.real_from given
        elim decision [ admitted a ↦ welcome owned ingress a | refused e ↦ bounce owned ingress e ]
    ]

-- `route_presence`
unfoldable pub route_presence : Room → IncomingPacket → AclConfig → Outcome Routed
route_presence room ingress acl = do
  given ← parse_muc_node ingress.mem ingress.muc
  elim (participants_find_by_jid room.participants.entries ingress.real_from) [
    | some sender ↦ present room ingress sender
    | none ↦ newcomer room ingress acl (bytes_at ingress.mem given)
  ]
