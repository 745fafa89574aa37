-- ===== src/Room/Query/Admin.antt =====
-- The branch of `route_iq` for muc#admin queries of the type set.
use mukite.Common.{
  ℕ, zero, suc, Bool, true, false, not, ◌&&◌, ◌||◌, Option, none, some, List, [], ◌∷◌, Bytes, ◌==◌,
  ltb, leb, if◌then◌else◌, Outcome, ok, fault, out_of_fuel, ◌>>=◌,
}
use mukite.Buffer.{BufferPtr, bpt_blank}
use mukite.Jid.{jid_empty}
use mukite.Acl.{AclConfig}
use mukite.Xmlfsm.{Span}
use mukite.Participant.{Participant, participants_find_by_nick, participant_set_affected}
use mukite.Affiliation.{
  Affiliations, affil_outcast, affil_admin, affiliationss_add, affiliationss_get_by_jid,
  affiliations_by_cast,
}
use mukite.Room.{Room, role_none, role_participant, role_moderator, set_participant}
use mukite.Room.Errors.{RoomError, recipient_not_in_room, privilege_level, iq_bad}
use mukite.Room.Query.Items.{AdminItem, no_item, bad_item, item, next_muc_admin_item}

-- What an item leaves: the room and the list of the affected, or an error. An error does not take
-- back what earlier items did.
pub data Applied : Type 0 where
  done : Room → List ℕ → Applied
  refused : Room → RoomError → Applied

-- What `sender` points at by now.
unfoldable pub current : List Participant → Participant → Participant
current [] p = p
current (q ∷ ps) p = if q.id == p.id then q else current ps p

abbrev pub is_set : {A : Type 0} → Option A → Bool
is_set none = false
is_set (some x) = true

-- An item names a nick for a role, or a JID for an affiliation, and not both or neither.
unfoldable pub is_malformed : AdminItem → Bool
is_malformed t =
    (is_set t.role && bpt_blank t.nick)
    || ((is_set t.affiliation && jid_empty t.jid)
        || (is_set t.role && is_set t.affiliation
            || not (is_set t.role) && not (is_set t.affiliation)))

-- Nobody changes the role of an admin or owner, and a mere moderator only roles below their own.
unfoldable pub may_not_change : Participant → Participant → ℕ → Bool
may_not_change sender receiver role =
    leb affil_admin receiver.affiliation
    || (ltb sender.affiliation affil_admin
        && (leb role_moderator receiver.role || leb role_moderator role))

-- The branch for a role.
unfoldable pub set_role : Room → Participant → List ℕ → AdminItem → ℕ → Applied
unfolding may_not_change participant_set_affected
set_role room sender affected target role =
    elim (participants_find_by_nick room.participants.entries target.nick) [
      | none ↦ refused room recipient_not_in_room
      | some receiver ↦
          if may_not_change sender receiver role
          then refused room privilege_level
          else (let (marked, more) =
                participant_set_affected (record receiver { role = role }) target.reason_node
                  affected in
              done (set_participant room marked) more)
    ]

-- The role that comes with an affiliation.
unfoldable pub new_role : ℕ → ℕ
new_role a =
    if leb affil_admin a
    then role_moderator
    else if a == affil_outcast
    then role_none
    else role_participant

-- The body of the loop over the occupants, once the occupant's affiliation is looked up.
unfoldable pub reaffiliated : ℕ → BufferPtr → Participant → List ℕ → Participant × List ℕ
unfolding new_role participant_set_affected
reaffiliated a reason p affected =
    if a == p.affiliation
    then (p, affected)
    else participant_set_affected (record p { role = new_role a; affiliation = a }) reason affected

-- The loop over the occupants, whose affiliations may have changed.
unfoldable pub reaffiliate :
    Affiliations
    → AclConfig
    → BufferPtr
    → List Participant
    → List ℕ
    → Outcome (List Participant × List ℕ)
unfolding affiliationss_get_by_jid reaffiliated
reaffiliate lists acl reason [] affected = ok ([], affected)
reaffiliate lists acl reason (p ∷ ps) affected = do
  a ← affiliationss_get_by_jid (affiliations_by_cast lists) acl p.jid
  let (changed, more) = reaffiliated a reason p affected
  (rest, all) ← reaffiliate lists acl reason ps more
  ok (changed ∷ rest, all)

-- The branch for an affiliation.
unfoldable pub set_affiliation :
    AclConfig → Room → Participant → List ℕ → AdminItem → ℕ → Outcome Applied
unfolding affiliationss_add reaffiliate
set_affiliation acl room sender affected target a =
    let (lists, added) =
      affiliationss_add room.affiliations (some sender) a target.jid target.reason_node in
    if ltb sender.affiliation affil_admin || not added
    then ok (refused room privilege_level)
    else do
      (entries, more) ← reaffiliate lists acl target.reason_node room.participants.entries affected
      ok (
          done
            (record room {
              affiliations = lists;
              participants = record room.participants { entries = entries };
            })
            more)

-- The body of the loop over the items.
unfoldable pub apply_item : AclConfig → Room → Participant → List ℕ → AdminItem → Outcome Applied
unfolding is_malformed set_role set_affiliation
apply_item acl room sender affected target =
    if is_malformed target then ok (refused room iq_bad) else elim target.role [
      | some role ↦ ok (set_role room sender affected target role)
      | none ↦ elim target.affiliation [
        | some a ↦ set_affiliation acl room sender affected target a
        | none ↦ ok (done room affected)
      ]
    ]

-- The loop over the items. Every item takes a byte at least.
unfoldable pub admin_items :
    ℕ → Bytes → AclConfig → Participant → Room → List ℕ → Span → Outcome Applied
unfolding next_muc_admin_item current apply_item
admin_items zero mem acl sender room affected b = fault out_of_fuel
admin_items (suc fuel) mem acl sender room affected b = do
  next ← next_muc_admin_item mem b
  elim next [
    | no_item ↦ ok (done room affected)
    | bad_item ↦ ok (refused room iq_bad)
    | item target rest ↦ do
      applied ← apply_item acl room (current room.participants.entries sender) affected target
      elim applied [
        | refused r e ↦ ok (refused r e)
        | done r more ↦ admin_items fuel mem acl sender r more rest
      ]
  ]
