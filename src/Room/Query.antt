-- ===== src/Room/Query.antt =====
-- `route_iq` of room.c, and `room_route`.
pub mod Items
pub mod Admin
pub mod Owner
pub mod Affected
pub mod Alike
pub mod Ranks
pub mod Ends
pub mod Loops
pub mod Termination
pub mod Changes
pub mod Replies
pub mod Occupants
use mukite.Common.{
  ℕ, zero, suc, ◌+◌, Bool, true, false, not, ◌&&◌, Option, none, some, List, [], ◌∷◌, Bytes, lit,
  ◌==◌, ltb, leb, if◌then◌else◌, length, Outcome, ok, fault, out_of_fuel, ◌>>=◌, bytes_eq,
}
use mukite.Buffer.{BufferPtr, bpt_null}
use mukite.Acl.{AclConfig}
use mukite.Jid.{Jid}
use mukite.Xmlfsm.{Span, slice, xmlfsm_skip_attrs, xmlfsm_skipto_attr, xmlfsm_next_sibling}
use mukite.Participant.{Participant, participants_find_by_jid, participants_find_by_nick}
use mukite.Affiliation.{affil_none, affil_admin, affil_owner, list_at}
use mukite.Packet.{
  IncomingPacket, BuilderPacket, IqType, no_iq, iq_empty, room_disco_info, room_disco_items,
  room_affiliations, room_config, empty_packet, bytes_at, packet_cleanup, cleanup_to_send,
  cleanup_from_to, cleanup_switch, SysData, nothing, affiliations, stanza_iq, stanza_iq_get,
  stanza_iq_set, stanza_iq_result, stanza_message, stanza_presence, stanza_error,
  room as about_room,
}
use mukite.Room.{Room, Routed, role_moderator}
use mukite.Room.Errors.{
  RoomError, external_iq, iq_prohibited, recipient_not_in_room, iq_bad, not_implemented,
  privilege_level,
}
use mukite.Room.Message.{bounce, route_message}
use mukite.Room.Presence.{route_presence}
use mukite.Room.Kick.{route_error}
use mukite.Room.Query.Items.{AdminItem, NextItem, no_item, bad_item, item, next_muc_admin_item}
use mukite.Room.Query.Admin.{Applied, done, refused, admin_items}
use mukite.Room.Query.Owner.{Owned, destroyed, configured, unknown, owner_query}
use mukite.Room.Query.Affected.{announce}

-- A query by its namespace: the node behind its attributes, and whether it is empty.
pub record QueryNode : Type 0 where
  pub xmlns : Bytes
  pub is_empty : Bool
  pub node : Span

-- The loop that looks for a <query> node with a namespace.
unfoldable pub find_query : ℕ → Bytes → Span → Outcome (Option QueryNode)
unfolding xmlfsm_next_sibling xmlfsm_skipto_attr xmlfsm_skip_attrs
find_query zero mem b = fault out_of_fuel
find_query (suc fuel) mem b = do
  sibling ← xmlfsm_next_sibling mem b
  elim sibling [
    | none ↦ ok none
    | some n ↦ elim (bytes_eq (lit "query") (slice mem n.node_name)) [
      | false ↦ find_query fuel mem n.buffer
      | true ↦ do
        (found, q) ← xmlfsm_skipto_attr (lit "xmlns") mem n.node.start
        elim found [
          | none ↦ find_query fuel mem n.buffer
          | some attr ↦ do
            (inside, r) ← xmlfsm_skip_attrs mem q
            ok (
                some (record {
                  xmlns = slice mem attr.value;
                  is_empty = not inside;
                  node = record { start = r; stop = n.node.stop };
                }))
        ]
    ]
  ]

-- A stanza without inner nodes has no query.
unfoldable pub query_of : Bytes → Option Span → Outcome (Option QueryNode)
unfolding find_query
query_of mem none = ok none
query_of mem (some inner) = find_query (length mem + 1) mem inner

-- What a query leaves: a reply and the list of the affected, or an error.
pub data Handled : Type 0 where
  reply : IqType → SysData → Room → List ℕ → Handled
  refuse : Room → RoomError → Handled

-- The guards on the sender, who must be in the room and of a rank.
abbrev pub with_rank :
    Room
    → (Participant → Bool)
    → Option Participant
    → (Participant → Outcome Handled)
    → Outcome Handled
with_rank room enough none k = ok (refuse room external_iq)
with_rank room enough (some p) k = if enough p then k p else ok (refuse room privilege_level)

abbrev pub is_admin : Participant → Bool
is_admin p = leb affil_admin p.affiliation

abbrev pub is_owner : Participant → Bool
is_owner p = leb affil_owner p.affiliation

abbrev pub is_moderator : Participant → Bool
is_moderator p = leb role_moderator p.role

-- The list that an item asks for.
unfoldable pub affiliations_reply : Room → NextItem → Handled
affiliations_reply room no_item = refuse room iq_bad
affiliations_reply room bad_item = refuse room iq_bad
affiliations_reply room (item target rest) = elim target.affiliation [
  | none ↦ refuse room iq_bad
  | some a ↦
      if a == affil_none
      then refuse room iq_bad
      else reply room_affiliations (affiliations a (list_at room.affiliations a).entries) room []
]

-- The namespaces of queries.
abbrev pub disco_info : Bytes
disco_info = lit "http://jabber.org/protocol/disco#info"

abbrev pub disco_items : Bytes
disco_items = lit "http://jabber.org/protocol/disco#items"

abbrev pub muc_admin : Bytes
muc_admin = lit "http://jabber.org/protocol/muc#admin"

abbrev pub muc_owner : Bytes
muc_owner = lit "http://jabber.org/protocol/muc#owner"

-- The branch for the type get. A namespace that is unknown is not implemented.
unfoldable pub get_query : Bytes → Room → Option Participant → QueryNode → Outcome Handled
unfolding next_muc_admin_item affiliations_reply
get_query mem room sender q =
    if bytes_eq disco_info q.xmlns
    then ok (reply room_disco_info (about_room room) room [])
    else if bytes_eq disco_items q.xmlns
    then ok (
        if room.flags.public_participants
        then reply room_disco_items (about_room room) room []
        else refuse room not_implemented)
    else if bytes_eq muc_admin q.xmlns
    then if q.is_empty
      then ok (refuse room iq_bad)
      else with_rank room is_admin sender
          (λ p. do next ← next_muc_admin_item mem q.node; ok (affiliations_reply room next))
    else if bytes_eq muc_owner q.xmlns
    then with_rank room is_owner sender (λ p. ok (reply room_config (about_room room) room []))
    else ok (refuse room not_implemented)

unfoldable pub admin_reply : Applied → Handled
admin_reply (done room affected) = reply room_affiliations (affiliations 0 []) room affected
admin_reply (refused room e) = refuse room e

-- The builder reads nothing of `sys_data` for a reply without content.
unfoldable pub owner_reply : Room → Owned → Handled
owner_reply old (destroyed room affected) = reply iq_empty nothing room affected
owner_reply old (configured room affected) = reply iq_empty nothing room affected
owner_reply old unknown = refuse old not_implemented

-- The branch for the type set.
unfoldable pub set_query :
    Bytes → AclConfig → Room → Option Participant → QueryNode → Outcome Handled
unfolding admin_items admin_reply owner_query owner_reply
set_query mem acl room sender q =
    if bytes_eq muc_admin q.xmlns
    then if q.is_empty
      then ok (refuse room iq_bad)
      else with_rank room is_moderator sender (λ p. do
        applied ← admin_items (length mem + 1) mem acl p room [] q.node
        ok (admin_reply applied))
    else if bytes_eq muc_owner q.xmlns
    then if q.is_empty
      then ok (refuse room iq_bad)
      else with_rank room is_owner sender
          (λ p. do owned ← owner_query mem acl p room q.node; ok (owner_reply room owned))
    else ok (refuse room not_implemented)

-- A query to the room itself, up to the reply.
unfoldable pub handle_query :
    AclConfig → Room → IncomingPacket → Option Participant → Option QueryNode → Outcome Handled
unfolding get_query set_query
handle_query acl room ingress sender none = ok (refuse room iq_bad)
handle_query acl room ingress sender (some q) =
    if ingress.type == stanza_iq_get
    then get_query ingress.mem room sender q
    else if ingress.type == stanza_iq_set
    then set_query ingress.mem acl room sender q
    else ok (refuse room not_implemented)

-- `egress` of a query to the room. Its name and header are not set.
abbrev pub query_reply : IqType → SysData → BuilderPacket
query_reply t data_of = record empty_packet {
  type = stanza_iq_result;
  iq_type = t;
  sys_data = data_of;
}

-- The end of `route_iq`.
unfoldable pub finish_query : IncomingPacket → Handled → Outcome Routed
unfolding bounce packet_cleanup announce
finish_query ingress (refuse room e) = bounce room ingress e
finish_query ingress (reply t data_of room affected) = do
  p ← packet_cleanup ingress cleanup_switch
  told ← announce affected room
  ok (record { room = told.room; sent = query_reply t data_of ∷ told.sent })

-- Whether the first node is a <vCard>.
unfoldable pub is_vcard : Bytes → Option Span → Outcome Bool
unfolding xmlfsm_next_sibling
is_vcard mem none = ok false
is_vcard mem (some inner) = do
  sibling ← xmlfsm_next_sibling mem inner
  elim sibling [ none ↦ ok false | some n ↦ ok (bytes_eq (lit "vCard") (slice mem n.node_name)) ]

unfoldable pub asks_vcard : IncomingPacket → Outcome Bool
unfolding is_vcard
asks_vcard p = if p.type == stanza_iq_get then is_vcard p.mem p.inner else ok false

-- A query to an occupant is passed on. A <vCard> goes to the account and not to the resource.
unfoldable pub pass_on : Room → IncomingPacket → Participant → Participant → Outcome Routed
unfolding cleanup_to_send asks_vcard
pass_on room ingress sender receiver = do
  p ← cleanup_to_send ingress cleanup_from_to
  vcard ← asks_vcard p
  ok (record {
    room = room;
    sent =
        record empty_packet {
          from_nick = sender.nick;
          user_data = bytes_at p.mem p.inner;
          to = if vcard then record receiver.jid { resource = none } else receiver.jid;
        }
        ∷ [];
  })

unfoldable pub query_occupant : Room → IncomingPacket → Option Participant → Outcome Routed
unfolding bounce pass_on
query_occupant room ingress none = bounce room ingress external_iq
query_occupant room ingress (some sender) =
    if not room.flags.iq_proxy
    then bounce room ingress iq_prohibited
    else elim (participants_find_by_nick room.participants.entries ingress.proxy_to.resource) [
      | none ↦ bounce room ingress recipient_not_in_room
      | some receiver ↦ pass_on room ingress sender receiver
    ]

-- A query to the room.
unfoldable pub query_room : AclConfig → Room → IncomingPacket → Option Participant → Outcome Routed
unfolding query_of handle_query finish_query
query_room acl room ingress sender = do
  q ← query_of ingress.mem ingress.inner
  handled ← handle_query acl room ingress sender q
  finish_query ingress handled

-- `route_iq`, without the build option MEWCAT, which is off.
unfoldable pub route_iq : Room → IncomingPacket → AclConfig → Outcome Routed
unfolding query_occupant query_room
route_iq room ingress acl =
    let sender = participants_find_by_jid room.participants.entries ingress.real_from in
    if not (bpt_null ingress.proxy_to.resource)
    then query_occupant room ingress sender
    else query_room acl room ingress sender

-- `room_route`
unfoldable pub room_route : Room → IncomingPacket → AclConfig → ℕ → ℕ → Outcome Routed
unfolding route_error route_message route_presence route_iq
room_route room ingress acl ticks limit =
    if ingress.type == stanza_error && not (ingress.name == stanza_iq)
    then route_error room ingress
    else if ingress.name == stanza_message
    then route_message room ingress ticks limit
    else if ingress.name == stanza_presence
    then route_presence room ingress acl
    else if ingress.name == stanza_iq
    then route_iq room ingress acl
    else ok (record { room = room; sent = [] })
