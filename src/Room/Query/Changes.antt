-- ===== src/Room/Query/Changes.antt =====
-- The occupants' invariant under the changes of a muc#admin query.
use mukite.Common.{
  ℕ, zero, suc, ◌≡◌, refl, not, ◌||◌, Option, none, some, List, ltb, if◌then◌else◌, if-cases,
  Outcome, ok, fault, ◌>>=◌, Ensures, bind-Ensures, Bytes,
}
use mukite.Acl.{AclConfig}
use mukite.Xmlfsm.{Span}
use mukite.Participant.{Participant, participant_set_affected, participants_find_by_nick}
use mukite.Participant.Nodes.{find_by_nick-Holds}
use mukite.Affiliation.{Affiliations, affil_admin, affiliationss_add}
use mukite.Room.{Room, set_participant}
use mukite.Room.Errors.{recipient_not_in_room, privilege_level, iq_bad}
use mukite.Room.Valid.{OccupantsValid}
use mukite.Room.Presence.Present.{written}
use mukite.Room.Query.Items.{AdminItem, NextItem, no_item, bad_item, item, next_muc_admin_item}
use mukite.Room.Query.Admin.{
  Applied, done, refused, set_role, may_not_change, set_affiliation, is_malformed, apply_item,
  admin_items, current,
}
use mukite.Room.Query.Alike.{Alike, Alike-IsValid, affected-Same, reaffiliate-Alike}

-- What is known of the room that an item leaves.
abbrev pub AppliedValid : Applied → Type 0
AppliedValid (done room affected) = OccupantsValid room
AppliedValid (refused room e) = OccupantsValid room

module _ (room : Room) (v : OccupantsValid room) where
  set_role-Valid :
      (sender : Participant) (affected : List ℕ) (target : AdminItem) (role : ℕ)
      → AppliedValid (set_role room sender affected target role)
  unfolding set_role
  set_role-Valid sender affected target role =
      by_receiver (participants_find_by_nick room.participants.entries target.nick) refl
    where
      by_receiver :
          (o : Option Participant)
          → participants_find_by_nick room.participants.entries target.nick ≡ o
          → AppliedValid (elim o [
            | none ↦ refused room recipient_not_in_room
            | some p ↦
                if may_not_change sender p role
                then refused room privilege_level
                else (let (marked, more) =
                      participant_set_affected
                        (record p { role = role })
                        target.reason_node
                        affected in
                    done (set_participant room marked) more)
          ])
      by_receiver none e = v
      by_receiver (some p) e = if-cases AppliedValid (may_not_change sender p role) v (
          let s =
            affected-Same p (record p { role = role }) target.reason_node affected
              (record { id = refl; jid = refl; nick = refl }) in
          (written room p _ v
            (find_by_nick-Holds room.next_id room.participants.entries target.nick v.ids e) s.id
            s.jid s.nick).0)

  set_affiliation-Valid :
      (acl : AclConfig) (sender : Participant) (affected : List ℕ) (target : AdminItem) (a : ℕ)
      → Ensures AppliedValid (set_affiliation acl room sender affected target a)
  unfolding set_affiliation
  set_affiliation-Valid acl sender affected target a =
      let added =
        affiliationss_add room.affiliations (some sender) a target.jid target.reason_node in
      if-cases (Ensures AppliedValid) (ltb sender.affiliation affil_admin || not added.1)
        {x = ok (refused room privilege_level)} v
        (changed added.0 _
          (reaffiliate-Alike added.0 acl target.reason_node room.participants.entries affected))
    where
      changed :
          (lists : Affiliations) (m : Outcome (List Participant × List ℕ))
          → Ensures (λ (r : List Participant × List ℕ). Alike room.participants.entries r.0) m
          → Ensures AppliedValid (
              m >>= λ r. ok (
                done
                  (record room {
                    affiliations = lists;
                    participants = record room.participants { entries = r.0 };
                  })
                  r.1))
      changed lists (ok r) h = Alike-IsValid room.participants room.next_id r.0 v h
      changed lists (fault f) h = tt

  apply_item-Valid :
      (acl : AclConfig) (sender : Participant) (affected : List ℕ) (target : AdminItem)
      → Ensures AppliedValid (apply_item acl room sender affected target)
  unfolding apply_item
  apply_item-Valid acl sender affected target =
      if-cases (Ensures AppliedValid) (is_malformed target) v (by_role target.role)
    where
      by_affiliation :
          (a : Option ℕ)
          → Ensures AppliedValid (elim a [
            | some a ↦ set_affiliation acl room sender affected target a
            | none ↦ ok (done room affected)
          ])
      by_affiliation none = v
      by_affiliation (some a) = set_affiliation-Valid acl sender affected target a

      by_role :
          (r : Option ℕ)
          → Ensures AppliedValid (elim r [
            | some role ↦ ok (set_role room sender affected target role)
            | none ↦ elim target.affiliation [
              | some a ↦ set_affiliation acl room sender affected target a
              | none ↦ ok (done room affected)
            ]
          ])
      by_role none = by_affiliation target.affiliation
      by_role (some role) = set_role-Valid sender affected target role

-- What the loop does with an item, if the rest of it keeps the invariant.
module _ (k : Room → List ℕ → Outcome Applied)
    (h : (r : Room) (more : List ℕ) → OccupantsValid r → Ensures AppliedValid (k r more)) where
  applied-Valid :
      (m : Outcome Applied)
      → Ensures AppliedValid m
      → Ensures AppliedValid (
          m >>= λ applied. elim applied [ refused r e ↦ ok (refused r e) | done r more ↦ k r more ])
  applied-Valid (ok (refused r e)) v = v
  applied-Valid (ok (done r more)) v = h r more v
  applied-Valid (fault f) v = tt

-- What the loop does with what `next_muc_admin_item` returns.
items-Valid :
    (room : Room) (acl : AclConfig) (sender : Participant) (affected : List ℕ)
    (again : Span → Room → List ℕ → Outcome Applied)
    → OccupantsValid room
    → ((rest : Span) (r : Room) (more : List ℕ)
        → OccupantsValid r
        → Ensures AppliedValid (again rest r more))
    → (next : NextItem)
    → Ensures AppliedValid (elim next [
      | no_item ↦ ok (done room affected)
      | bad_item ↦ ok (refused room iq_bad)
      | item target rest ↦ do
        applied ← apply_item acl room sender affected target
        elim applied [ refused r e ↦ ok (refused r e) | done r more ↦ again rest r more ]
    ])
items-Valid room acl sender affected again v h no_item = v
items-Valid room acl sender affected again v h bad_item = v
items-Valid room acl sender affected again v h (item target rest) =
    applied-Valid (again rest) (h rest) _ (apply_item-Valid room v acl sender affected target)

pub admin_items-Valid :
    (fuel : ℕ) (mem : Bytes) (acl : AclConfig) (sender : Participant) (room : Room)
    (affected : List ℕ) (b : Span)
    → OccupantsValid room
    → Ensures AppliedValid (admin_items fuel mem acl sender room affected b)
unfolding admin_items
admin_items-Valid zero mem acl sender room affected b v = tt
admin_items-Valid (suc fuel) mem acl sender room affected b v =
    bind-Ensures _ (next_muc_admin_item mem b) _ (
      items-Valid room acl (current room.participants.entries sender) affected
        (λ rest r more. admin_items fuel mem acl sender r more rest) v
        (λ rest r more w. admin_items-Valid fuel mem acl sender r more rest w))
