-- ===== src/Room/Presence/Ends.antt =====
-- The fuel of `route_presence` as a whole.
use mukite.Room.Presence.Cases.{decide, newcomer-by, present-by}
use mukite.Common.{
  leb, if-cases, bind-Terminates, Terminates, Bool, some, none, [], ◌∷◌, ◌>>=◌, if◌then◌else◌,
  Option, List, Bytes, suc, ℕ, Bool-cases, Option-cases, true, false, inl, inr, Outcome, ok,
}
use mukite.Room.Errors.{
  occupants_limit, error_definitions, RoomError, jid_malformed, occupant_conflict,
}
use mukite.Affiliation.{
  affil_owner, affiliationss_get_by_jid, search_lists, head_of, affiliations_by_cast, ListPtr,
  to_list, null, to_entry, wild, affiliations_find_by_jid, affil_outcast,
}
use mukite.Room.Presence.{
  admit_affiliation, finish_cleaned, present, Admission, admitted, refused, parse_muc_node,
  route_presence, newcomer, welcome, own_created, admission,
}
use mukite.Acl.{acl_role, acl_muc_admin, AclConfig}
use mukite.Xmlfsm.{XmlAttr, Span}
use mukite.Participant.{Participant, participants_find_by_jid}
use mukite.Packet.{
  worker_bounce, IncomingPacket, packet_cleanup, cleanup_to_send, pushed_inner, cleanup_from_to,
  bytes_at, cleanup_bounce, cleanup_switch, blank_attr, switch_attr,
}
use mukite.Buffer.{BufferPtr, bpt_null}
use mukite.Jid.{Jid, JidMode, jid_node_host, jid_host}
use mukite.Room.{Room}
use mukite.Room.Message.{bounce}
use mukite.Room.Presence.Fuel.{parse_muc_node-Terminates}

blank_attr-Terminates : (a : Option XmlAttr) (mem : Bytes) → Terminates (blank_attr a mem)
unfolding blank_attr
blank_attr-Terminates none mem = tt
blank_attr-Terminates (some a) mem = tt

switch_attr-Terminates : (a : Option XmlAttr) (mem : Bytes) → Terminates (switch_attr a mem)
unfolding switch_attr
switch_attr-Terminates none mem = tt
switch_attr-Terminates (some a) mem = tt

pub cleanup-Terminates : (p : IncomingPacket) → Terminates (packet_cleanup p cleanup_from_to)
unfolding packet_cleanup
cleanup-Terminates p =
    bind-Terminates (blank_attr p.to_attr _) _ (blank_attr-Terminates p.to_attr _) (λ tos.
      bind-Terminates (blank_attr p.from_attr tos) _ (blank_attr-Terminates p.from_attr tos)
        (λ froms. tt))

inner-Terminates : (p : IncomingPacket) (o : Option Span) → Terminates (pushed_inner p o)
inner-Terminates p none = tt
inner-Terminates p (some s) = if-cases Terminates (leb s.start s.stop) tt tt

pub to_send-Terminates : (p : IncomingPacket) → Terminates (cleanup_to_send p cleanup_from_to)
unfolding cleanup_to_send
to_send-Terminates p =
    bind-Terminates (packet_cleanup p cleanup_from_to) _ (cleanup-Terminates p)
      (λ q. inner-Terminates q q.inner)

turned-Terminates : (p : IncomingPacket) → Terminates (packet_cleanup p cleanup_bounce)
unfolding packet_cleanup
turned-Terminates p =
    bind-Terminates (blank_attr p.to_attr _) _ (blank_attr-Terminates p.to_attr _) (λ tos.
      bind-Terminates (switch_attr p.from_attr tos) _ (switch_attr-Terminates p.from_attr tos)
        (λ froms. tt))

pub bounce-Terminates :
    (room : Room) (p : IncomingPacket) (e : RoomError) → Terminates (bounce room p e)
unfolding bounce worker_bounce
bounce-Terminates room p e =
    bind-Terminates (worker_bounce p (error_definitions e) room.node) _
      (bind-Terminates (cleanup_to_send p cleanup_bounce) _
        (bind-Terminates (packet_cleanup p cleanup_bounce) _ (turned-Terminates p)
          (λ q. inner-Terminates q q.inner))
        (λ q. tt))
      (λ q. tt)

pub switch-Terminates : (p : IncomingPacket) → Terminates (packet_cleanup p cleanup_switch)
unfolding packet_cleanup
switch-Terminates p =
    bind-Terminates (switch_attr p.from_attr _) _ (switch_attr-Terminates p.from_attr _)
      (λ froms. tt)

head_of-Terminates : (p : ListPtr) → Terminates (head_of p)
unfolding head_of
head_of-Terminates (to_list l) = tt
head_of-Terminates null = tt
head_of-Terminates (to_entry a) = elim (Bool-cases (bpt_null a.jid.node)) [
  | inl empty ↦ rw empty tt
  | inr full ↦ rw full tt
]
head_of-Terminates wild = tt

search-Terminates :
    (ps : List ListPtr) (a : ℕ) (j : Jid) (mode : JidMode) → Terminates (search_lists ps a j mode)
unfolding search_lists
search-Terminates [] a j mode = tt
search-Terminates (p ∷ ps) a j mode = bind-Terminates (head_of p) _ (head_of-Terminates p) (λ es.
    elim (Option-cases (affiliations_find_by_jid es j mode)) [
      | inl missing ↦ rw missing (search-Terminates ps (suc a) j mode)
      | inr (node, e) ↦ rw e tt
    ])

pub get_by_jid-Terminates :
    (ps : List ListPtr) (acl : AclConfig) (j : Jid) → Terminates (affiliationss_get_by_jid ps acl j)
unfolding affiliationss_get_by_jid
get_by_jid-Terminates ps acl j = elim (Bool-cases (leb acl_muc_admin (acl_role acl j))) [
  | inl high ↦ rw (affiliationss_get_by_jid, high) tt
  | inr low ↦
      rw (affiliationss_get_by_jid, low)
        (bind-Terminates (search_lists ps affil_outcast j jid_node_host) _
          (search-Terminates ps affil_outcast j jid_node_host)
          (λ full. elim (Option-cases full) [
            | inr (a, e) ↦ rw e tt
            | inl missing ↦ rw missing (
                bind-Terminates (search_lists ps affil_outcast j jid_host) _
                  (search-Terminates ps affil_outcast j jid_host)
                  (λ host. elim (Option-cases host) [
                    | inl none_found ↦ rw none_found tt
                    | inr (a, e) ↦ rw e tt
                  ]))
          ]))
]

-- The guards of `admission`, round a search that ends.
guarded-Terminates :
    (high full : Bool) (room : Room) (given : BufferPtr) (m : Outcome ℕ)
    → Terminates m
    → Terminates (
        if high
        then ok (admitted affil_owner)
        else if full
        then ok (refused occupants_limit)
        else do a ← m; ok (admit_affiliation room given a))
guarded-Terminates true full room given m h = tt
guarded-Terminates false true room given m h = tt
guarded-Terminates false false room given m h = bind-Terminates m _ h (λ a. tt)

admission-Terminates :
    (room : Room) (acl : AclConfig) (j : Jid) (given : BufferPtr)
    → Terminates (admission room acl j given)
unfolding admission
admission-Terminates room acl j given =
    guarded-Terminates (leb acl_muc_admin (acl_role acl j))
      (leb room.participants.max_size room.participants.size) room given
      (affiliationss_get_by_jid (affiliations_by_cast room.affiliations) acl j)
      (get_by_jid-Terminates (affiliations_by_cast room.affiliations) acl j)

finish_cleaned-Terminates :
    (room : Room) (ingress : IncomingPacket) (p : Participant)
    → Terminates (finish_cleaned room ingress p)
unfolding finish_cleaned
finish_cleaned-Terminates room ingress p =
    bind-Terminates (packet_cleanup ingress cleanup_from_to) _ (cleanup-Terminates ingress)
      (λ q. tt)

present-Terminates :
    (room : Room) (ingress : IncomingPacket) (p : Participant) → Terminates (present room ingress p)
present-Terminates room ingress p =
    present-by Terminates room ingress p (finish_cleaned-Terminates room ingress p) tt
      (bounce-Terminates room ingress occupant_conflict) (λ free. tt)

decided-Terminates :
    (room : Room) (ingress : IncomingPacket) (d : Admission) → Terminates (decide room ingress d)
unfolding welcome
decided-Terminates room ingress (admitted a) =
    bind-Terminates (packet_cleanup ingress cleanup_from_to) _ (cleanup-Terminates ingress)
      (λ q. tt)
decided-Terminates room ingress (refused e) = bounce-Terminates room ingress e

newcomer-Terminates :
    (room : Room) (ingress : IncomingPacket) (acl : AclConfig) (given : BufferPtr)
    → Terminates (newcomer room ingress acl given)
newcomer-Terminates room ingress acl given =
    let owned = own_created room ingress.real_from in
    newcomer-by Terminates room ingress acl given tt (bounce-Terminates room ingress jid_malformed)
      (bounce-Terminates room ingress occupant_conflict)
      (λ here free.
        bind-Terminates (admission owned acl ingress.real_from given) _
          (admission-Terminates owned acl ingress.real_from given)
          (λ d. decided-Terminates owned ingress d))

-- Whatever the room, the stanza and its block of memory are, the loops of `route_presence` over the nodes
-- and the attributes of the MUC node end within the rounds that the model gives them.
pub route_presence-Terminates :
    (room : Room) (ingress : IncomingPacket) (acl : AclConfig)
    → Terminates (route_presence room ingress acl)
unfolding route_presence
route_presence-Terminates room ingress acl =
    bind-Terminates (parse_muc_node ingress.mem ingress.muc) _
      (parse_muc_node-Terminates ingress.mem ingress.muc)
      (λ given.
        elim (Option-cases (participants_find_by_jid room.participants.entries ingress.real_from)) [
          | inl new ↦ rw new (newcomer-Terminates room ingress acl (bytes_at ingress.mem given))
          | inr (sender, e) ↦ rw e (present-Terminates room ingress sender)
        ])
