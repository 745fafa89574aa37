-- ===== src/Room/Presence/Join.antt =====
-- Who joins a room: the newcomers of `route_presence`.
use mukite.Room.Presence.Cases.{decide, newcomer-by}
use mukite.Common.{
  Ensures, bind-Ensures, ◌≡◌, refl, ◌<◌, Bool-cases, inl, inr, none, arith, leb, Outcome, ok, fault,
  ◌>>=◌,
}
use mukite.Buffer.{BufferPtr}
use mukite.Jid.{Jid}
use mukite.Acl.{AclConfig, acl_role, acl_muc_admin}
use mukite.Participant.{participants_find_by_jid}
use mukite.Affiliation.{affil_owner}
use mukite.Affiliation.Cast.{get_by_jid-cast-Faults}
use mukite.Affiliation.Sizes.{Counted, affiliationss_add-Counted}
use mukite.Packet.{IncomingPacket, bytes_at, worker_bounce}
use mukite.Room.{Room, Routed}
use mukite.Room.Errors.{RoomError, jid_malformed, occupant_conflict, occupants_limit}
use mukite.Room.Message.{bounce}
use mukite.Room.Presence.{
  Admission, refused, parse_muc_node, route_presence, newcomer, own_created, admission,
}

own_created-Counted :
    (room : Room) (j : Jid) → Counted room.affiliations → Counted (own_created room j).affiliations
unfolding own_created
own_created-Counted room j v = elim (Bool-cases room.flags.just_created) [
  | inl e ↦ rw e (affiliationss_add-Counted room.affiliations none affil_owner j none v)
  | inr e ↦ rw e v
]

pub own_created-participants :
    (room : Room) (j : Jid) → (own_created room j).participants ≡ room.participants
unfolding own_created
own_created-participants room j = elim (Bool-cases room.flags.just_created) [
  | inl e ↦ rw e refl
  | inr e ↦ rw e refl
]

-- A JID below the rank of an administrator is admitted to no room.
admission-by_rank :
    (room : Room) (acl : AclConfig) (j : Jid) (given : BufferPtr)
    → Counted room.affiliations
    → acl_role acl j < acl_muc_admin
    → Ensures (λ d. d ≡ refused occupants_limit) (admission room acl j given)
unfolding admission
admission-by_rank room acl j given v low =
    elim (Bool-cases (leb room.participants.max_size room.participants.size)) [
      | inl full ↦ ground arith
      | inr free ↦
          let (f, e) =
            get_by_jid-cast-Faults room.affiliations acl j (omega (arith, v.outcasts)) low in
          ground (arith, e)
    ]

abbrev SameOccupants : Room → Outcome Routed → Type 0
SameOccupants room = Ensures (λ r. r.room.participants ≡ room.participants)

bounce-SameOccupants :
    (room at : Room) (ingress : IncomingPacket) (e : RoomError)
    → at.participants ≡ room.participants
    → SameOccupants room (bounce at ingress e)
unfolding bounce
bounce-SameOccupants room at ingress e same =
    bind-Ensures _ (worker_bounce ingress _ at.node) _ (λ p. same)

decided-SameOccupants :
    (room owned : Room) (ingress : IncomingPacket) (d : Outcome Admission)
    → owned.participants ≡ room.participants
    → Ensures (λ d. d ≡ refused occupants_limit) d
    → SameOccupants room (d >>= decide owned ingress)
decided-SameOccupants room owned ingress (fault f) same h = tt
decided-SameOccupants room owned ingress (ok d) same h =
    rw h (bounce-SameOccupants room owned ingress occupants_limit same)

newcomer-by_rank :
    (room : Room) (ingress : IncomingPacket) (acl : AclConfig) (given : BufferPtr)
    → Counted room.affiliations
    → acl_role acl ingress.real_from < acl_muc_admin
    → SameOccupants room (newcomer room ingress acl given)
newcomer-by_rank room ingress acl given v low =
    let owned = own_created room ingress.real_from in
    newcomer-by (SameOccupants room) room ingress acl given refl
      (bounce-SameOccupants room room ingress jid_malformed refl)
      (bounce-SameOccupants room room ingress occupant_conflict refl)
      (λ here free.
        decided-SameOccupants room owned ingress (admission owned acl ingress.real_from given)
          (own_created-participants room ingress.real_from)
          (admission-by_rank owned acl ingress.real_from given
            (own_created-Counted room ingress.real_from v) low))

-- A presence of somebody who is not in the room and whose rank is below ACL_MUC_ADMIN lets nobody in:
-- where the call does not fault, the list of occupants is as before. The counters of the room's
-- five lists of affiliations are assumed to be right.
pub route_presence-newcomer_by_rank :
    (room : Room) (ingress : IncomingPacket) (acl : AclConfig)
    → Counted room.affiliations
    → participants_find_by_jid room.participants.entries ingress.real_from ≡ none
    → acl_role acl ingress.real_from < acl_muc_admin
    → Ensures (λ r. r.room.participants ≡ room.participants) (route_presence room ingress acl)
unfolding route_presence
route_presence-newcomer_by_rank room ingress acl v new low =
    bind-Ensures _ (parse_muc_node ingress.mem ingress.muc) _
      (λ given. rw new (newcomer-by_rank room ingress acl (bytes_at ingress.mem given) v low))
