-- ===== src/Room/Presence/Occupants.antt =====
-- The occupants' invariant after `route_presence`.
use mukite.Room.Presence.Cases.{decide, newcomer-by}
use mukite.Common.{
  Ensures, bind-Ensures, ℕ, ◌≡◌, refl, ◌≤◌, inl, inr, none, true, Bool-cases, Option-cases,
}
use mukite.Buffer.{BufferPtr, bpt_size}
use mukite.Jid.{Jid, max_jid_part_size}
use mukite.Jid.Compare.{NodeFilled}
use mukite.Acl.{AclConfig}
use mukite.Participant.{participants_find_by_jid, participants_find_by_nick, find_by_jid, find_mode}
use mukite.Participant.Nodes.{Holds, find_by_jid-Holds}
use mukite.Packet.{bytes_at, IncomingPacket, packet_cleanup, cleanup_from_to}
use mukite.Room.{Room, room_presences_send, room_join}
use mukite.Room.Valid.{OccupantsValid, room_join-IsValid}
use mukite.Room.Errors.{occupant_conflict, jid_malformed}
use mukite.Room.Presence.{
  Admission, admitted, refused, parse_muc_node, route_presence, newcomer, welcome, own_created,
  admission,
}
use mukite.Room.Presence.Join.{own_created-participants}
use mukite.Room.Presence.Present.{Keeps, bounce-Keeps, finish-Valid, present-Keeps}

own_created-Valid :
    (room : Room) (j : Jid) → OccupantsValid room → OccupantsValid (own_created room j)
unfolding own_created
own_created-Valid room j v = elim (Bool-cases room.flags.just_created) [
  | inl e ↦ rw e v
  | inr e ↦ rw e v
]

pub room_join-Holds :
    (room : Room) (j : Jid) (nick : BufferPtr) (a : ℕ)
    → Holds (room_join room j nick a).1 (room_join room j nick a).0.participants.entries
unfolding room_join
room_join-Holds room j nick a = inl refl

welcome-Keeps :
    (room : Room) (ingress : IncomingPacket) (a : ℕ)
    → OccupantsValid room
    → NodeFilled ingress.real_from.node
    → NodeFilled ingress.real_from.resource
    → bpt_size ingress.proxy_to.resource ≤ max_jid_part_size
    → participants_find_by_nick room.participants.entries ingress.proxy_to.resource ≡ none
    → participants_find_by_jid room.participants.entries ingress.real_from ≡ none
    → Keeps (welcome room ingress a)
unfolding welcome
welcome-Keeps room ingress a v node resource fits free new =
    bind-Ensures _ (packet_cleanup ingress cleanup_from_to) _ (λ p.
      let r = room_join room ingress.real_from ingress.proxy_to.resource a in
      finish-Valid r.0 p r.1 true (room_presences_send r.0 r.1)
        (room_join-IsValid room ingress.real_from ingress.proxy_to.resource a v node resource fits
          free new)
        (room_join-Holds room ingress.real_from ingress.proxy_to.resource a))

decided-Keeps :
    (room : Room) (ingress : IncomingPacket) (d : Admission)
    → OccupantsValid room
    → NodeFilled ingress.real_from.node
    → NodeFilled ingress.real_from.resource
    → bpt_size ingress.proxy_to.resource ≤ max_jid_part_size
    → participants_find_by_nick room.participants.entries ingress.proxy_to.resource ≡ none
    → participants_find_by_jid room.participants.entries ingress.real_from ≡ none
    → Keeps (decide room ingress d)
decided-Keeps room ingress (admitted a) v node resource fits free new =
    welcome-Keeps room ingress a v node resource fits free new
decided-Keeps room ingress (refused e) v node resource fits free new = bounce-Keeps room ingress e v

newcomer-Keeps :
    (room : Room) (ingress : IncomingPacket) (acl : AclConfig) (given : BufferPtr)
    → OccupantsValid room
    → NodeFilled ingress.real_from.node
    → NodeFilled ingress.real_from.resource
    → bpt_size ingress.proxy_to.resource ≤ max_jid_part_size
    → participants_find_by_jid room.participants.entries ingress.real_from ≡ none
    → Keeps (newcomer room ingress acl given)
newcomer-Keeps room ingress acl given v node resource fits new =
    let owned = own_created room ingress.real_from in
    let same = own_created-participants room ingress.real_from in
    newcomer-by Keeps room ingress acl given v (bounce-Keeps room ingress jid_malformed v)
      (bounce-Keeps room ingress occupant_conflict v)
      (λ here free. bind-Ensures _ (admission owned acl ingress.real_from given) _ (λ d.
        decided-Keeps owned ingress d (own_created-Valid room ingress.real_from v) node resource
          fits (rw same free) (rw same new)))

-- A room whose occupants have addresses, nicks and full JIDs of their own and whose counter is their number
-- is such a room after every presence that does not fault, if the sender's node and resource are not
-- empty and the nick that is asked for is at most 1023 bytes long.
pub route_presence-OccupantsValid :
    (room : Room) (ingress : IncomingPacket) (acl : AclConfig)
    → OccupantsValid room
    → NodeFilled ingress.real_from.node
    → NodeFilled ingress.real_from.resource
    → bpt_size ingress.proxy_to.resource ≤ max_jid_part_size
    → Ensures (λ r. OccupantsValid r.room) (route_presence room ingress acl)
unfolding route_presence find_by_jid participants_find_by_jid
route_presence-OccupantsValid room ingress acl v node resource fits =
    bind-Ensures _ (parse_muc_node ingress.mem ingress.muc) _ (λ given.
      elim (Option-cases (participants_find_by_jid room.participants.entries ingress.real_from)) [
        | inl new ↦
            rw new (
              newcomer-Keeps room ingress acl (bytes_at ingress.mem given) v node resource fits new)
        | inr (sender, e) ↦ rw e (
            present-Keeps room ingress sender v (
              find_by_jid-Holds room.next_id room.participants.entries ingress.real_from
                (find_mode ingress.real_from) v.ids e))
      ])
