-- ===== src/Room/Query/Termination.antt =====
-- The fuel of `room_route`.
use mukite.Common.{
  ℕ, ◌+◌, Bool, not, ◌&&◌, Option, none, some, List, [], ◌∷◌, length, ◌==◌, if-cases, Option-cases,
  inl, inr, Outcome, bind-Meets, Terminates, bind-Terminates, Bytes, bytes_eq, arith,
}
use mukite.Buffer.{bpt_null}
use mukite.Acl.{AclConfig}
use mukite.Participant.{Participant, participants_find_by_jid, participants_find_by_nick}
use mukite.Xmlfsm.{Span}
use mukite.Xmlfsm.Siblings.{siblings-Terminates}
use mukite.Packet.{
  IncomingPacket, packet_cleanup, cleanup_to_send, cleanup_from_to, cleanup_switch, stanza_iq_get,
  stanza_iq_set, stanza_iq, stanza_error, stanza_message, stanza_presence,
}
use mukite.Room.{Room}
use mukite.Room.Errors.{external_iq, iq_prohibited, recipient_not_in_room}
use mukite.Room.Presence.Ends.{
  bounce-Terminates, cleanup-Terminates, to_send-Terminates, switch-Terminates,
  route_presence-Terminates,
}
use mukite.Room.Query.Items.{next_muc_admin_item}
use mukite.Room.Query.Admin.{admin_items}
use mukite.Room.Query.Owner.{owner_nodes, owner_query}
use mukite.Room.Query.Affected.{at_address, announce_one, announce}
use mukite.Room.Query.Ends.{Left, next_muc_admin_item-Left}
use mukite.Room.Query.{
  Handled, reply, refuse, with_rank, get_query, set_query, handle_query, QueryNode, disco_info,
  disco_items, muc_admin, muc_owner, is_admin, is_owner, is_moderator, finish_query, query_of,
  query_room, query_occupant, pass_on, asks_vcard, is_vcard, route_iq, room_route,
}
use mukite.Room.Message.Ends.{route_message-Terminates}
use mukite.Room.Kick.{route_error}
use mukite.Room.Query.Loops.{admin_items-Terminates, owner_nodes-Terminates, find_query-Terminates}

query_of-Terminates : (mem : Bytes) (inner : Option Span) → Terminates (query_of mem inner)
unfolding query_of
query_of-Terminates mem none = tt
query_of-Terminates mem (some b) =
    find_query-Terminates (length mem + 1) mem b (omega arith) (omega arith)

ranked-Terminates :
    (room : Room) (enough : Participant → Bool) (sender : Option Participant)
    (k : Participant → Outcome Handled)
    → ((p : Participant) → Terminates (k p))
    → Terminates (with_rank room enough sender k)
ranked-Terminates room enough none k h = tt
ranked-Terminates room enough (some p) k h = if-cases Terminates (enough p) (h p) tt

get_query-Terminates :
    (mem : Bytes) (room : Room) (sender : Option Participant) (q : QueryNode)
    → Terminates (get_query mem room sender q)
unfolding get_query
get_query-Terminates mem room sender q = if-cases Terminates (bytes_eq disco_info q.xmlns) tt (
    if-cases Terminates (bytes_eq disco_items q.xmlns) tt (
      if-cases Terminates (bytes_eq muc_admin q.xmlns)
        (if-cases Terminates q.is_empty tt (
          ranked-Terminates room is_admin sender _ (λ p.
            bind-Meets (Left mem q.node.start) (λ r. Unit {0}) (next_muc_admin_item mem q.node) _
              (next_muc_admin_item-Left mem q.node) (λ next l. tt))))
        (if-cases Terminates (bytes_eq muc_owner q.xmlns)
          (ranked-Terminates room is_owner sender _ (λ p. tt)) tt)))

set_query-Terminates :
    (mem : Bytes) (acl : AclConfig) (room : Room) (sender : Option Participant) (q : QueryNode)
    → Terminates (set_query mem acl room sender q)
unfolding set_query owner_query
set_query-Terminates mem acl room sender q =
    if-cases Terminates (bytes_eq muc_admin q.xmlns)
      (if-cases Terminates q.is_empty tt (
        ranked-Terminates room is_moderator sender _ (λ p.
          bind-Terminates (admin_items (length mem + 1) mem acl p room [] q.node) _
            (admin_items-Terminates (length mem + 1) mem acl p room [] q.node (omega arith)
              (omega arith))
            (λ applied. tt))))
      (if-cases Terminates (bytes_eq muc_owner q.xmlns)
        (if-cases Terminates q.is_empty tt (
          ranked-Terminates room is_owner sender _ (λ p.
            bind-Terminates (owner_nodes (length mem + 1) mem acl p room q.node) _
              (owner_nodes-Terminates (length mem + 1) mem acl p room q.node (omega arith)
                (omega arith))
              (λ owned. tt))))
        tt)

handle_query-Terminates :
    (acl : AclConfig) (room : Room) (ingress : IncomingPacket) (sender : Option Participant)
    (q : Option QueryNode)
    → Terminates (handle_query acl room ingress sender q)
unfolding handle_query
handle_query-Terminates acl room ingress sender none = tt
handle_query-Terminates acl room ingress sender (some q) =
    if-cases Terminates (ingress.type == stanza_iq_get)
      (get_query-Terminates ingress.mem room sender q)
      (if-cases Terminates (ingress.type == stanza_iq_set)
        (set_query-Terminates ingress.mem acl room sender q) tt)

announce-Terminates : (ids : List ℕ) (room : Room) → Terminates (announce ids room)
unfolding announce
announce-Terminates [] room = tt
announce-Terminates (id ∷ ids) room =
    elim (Option-cases (at_address id room.participants.entries)) [
      | inl gone ↦ rw (announce, gone) tt
      | inr (p, e) ↦
          rw (announce, e)
            (bind-Terminates (announce ids (announce_one room p).room) _
              (announce-Terminates ids (announce_one room p).room) (λ later. tt))
    ]

finish_query-Terminates :
    (ingress : IncomingPacket) (handled : Handled) → Terminates (finish_query ingress handled)
unfolding finish_query
finish_query-Terminates ingress (refuse room e) = bounce-Terminates room ingress e
finish_query-Terminates ingress (reply t data_of room affected) =
    bind-Terminates (packet_cleanup ingress cleanup_switch) _ (switch-Terminates ingress) (λ p.
      bind-Terminates (announce affected room) _ (announce-Terminates affected room) (λ told. tt))

is_vcard-Terminates : (mem : Bytes) (inner : Option Span) → Terminates (is_vcard mem inner)
unfolding is_vcard
is_vcard-Terminates mem none = tt
is_vcard-Terminates mem (some b) = siblings-Terminates mem b _ tt (λ n further fits. tt)

pass_on-Terminates :
    (room : Room) (ingress : IncomingPacket) (sender receiver : Participant)
    → Terminates (pass_on room ingress sender receiver)
unfolding pass_on asks_vcard
pass_on-Terminates room ingress sender receiver =
    bind-Terminates (cleanup_to_send ingress cleanup_from_to) _ (to_send-Terminates ingress) (λ p.
      bind-Terminates (asks_vcard p) _
        (if-cases Terminates (p.type == stanza_iq_get) (is_vcard-Terminates p.mem p.inner) tt)
        (λ vcard. tt))

query_occupant-Terminates :
    (room : Room) (ingress : IncomingPacket) (sender : Option Participant)
    → Terminates (query_occupant room ingress sender)
unfolding query_occupant
query_occupant-Terminates room ingress none = bounce-Terminates room ingress external_iq
query_occupant-Terminates room ingress (some sender) =
    if-cases Terminates (not room.flags.iq_proxy) (bounce-Terminates room ingress iq_prohibited)
      (elim (Option-cases
        (participants_find_by_nick room.participants.entries ingress.proxy_to.resource)) [
          | inl missing ↦ rw missing (bounce-Terminates room ingress recipient_not_in_room)
          | inr (receiver, e) ↦ rw e (pass_on-Terminates room ingress sender receiver)
        ])

route_iq-Terminates :
    (room : Room) (ingress : IncomingPacket) (acl : AclConfig)
    → Terminates (route_iq room ingress acl)
unfolding route_iq query_room
route_iq-Terminates room ingress acl =
    let sender = participants_find_by_jid room.participants.entries ingress.real_from in
    if-cases Terminates (not (bpt_null ingress.proxy_to.resource))
      (query_occupant-Terminates room ingress sender)
      (bind-Terminates (query_of ingress.mem ingress.inner) _
        (query_of-Terminates ingress.mem ingress.inner)
        (λ q.
          bind-Terminates (handle_query acl room ingress sender q) _
            (handle_query-Terminates acl room ingress sender q) (finish_query-Terminates ingress)))

route_error-Terminates :
    (room : Room) (ingress : IncomingPacket) → Terminates (route_error room ingress)
unfolding route_error
route_error-Terminates room ingress =
    elim (Option-cases (participants_find_by_jid room.participants.entries ingress.real_from)) [
      | inl missing ↦ rw (route_error, missing) tt
      | inr (p, e) ↦
          rw (route_error, e)
            (bind-Terminates (packet_cleanup ingress cleanup_from_to) _ (cleanup-Terminates ingress)
              (λ q. tt))
    ]

-- Whatever the room, the stanza and its block of memory are, the loops of `room_route` over nodes, attributes
-- and the items of a query end within the rounds that the model gives them.
pub room_route-Terminates :
    (room : Room) (ingress : IncomingPacket) (acl : AclConfig) (ticks limit : ℕ)
    → Terminates (room_route room ingress acl ticks limit)
unfolding room_route
room_route-Terminates room ingress acl ticks limit =
    if-cases Terminates (ingress.type == stanza_error && not (ingress.name == stanza_iq))
      (route_error-Terminates room ingress)
      (if-cases Terminates (ingress.name == stanza_message)
        (route_message-Terminates room ingress ticks limit)
        (if-cases Terminates (ingress.name == stanza_presence)
          (route_presence-Terminates room ingress acl)
          (if-cases Terminates (ingress.name == stanza_iq) (route_iq-Terminates room ingress acl)
            tt)))
