-- ===== src/Room/Query/Owner.antt =====
-- The branch of `route_iq` for muc#owner queries of the type set.
use mukite.Common.{
  ℕ, zero, suc, ◌+◌, Bool, true, false, none, some, List, [], ◌∷◌, Bytes, lit, ltb, if◌then◌else◌,
  length, Outcome, ok, fault, out_of_fuel, ◌>>=◌, bytes_eq,
}
use mukite.Buffer.{BufferPtr}
use mukite.Acl.{AclConfig, acl_role}
use mukite.Xmlfsm.{Span, Node, slice, xmlfsm_skip_attrs, xmlfsm_next_sibling}
use mukite.Participant.{Participant, participant_set_affected}
use mukite.Affiliation.{affil_none, affil_member}
use mukite.Room.{Room, role_none}
use mukite.Room.Config.{room_config_parse}

-- What the loop over the nodes leaves: the room and the list of the affected, or a query without a
-- node that is known.
pub data Owned : Type 0 where
  destroyed configured : Room → List ℕ → Owned
  unknown : Owned

-- A loop over the occupants that changes and marks those who meet a test.
unfoldable pub mark_where :
    (Participant → Bool)
    → (Participant → Participant)
    → BufferPtr
    → List Participant
    → List ℕ
    → List Participant × List ℕ
unfolding participant_set_affected
mark_where test change reason [] affected = ([], affected)
mark_where test change reason (p ∷ ps) affected =
    let (q, more) =
      if test p then participant_set_affected (change p) reason affected else (p, affected) in
    let (rest, all) = mark_where test change reason ps more in (q ∷ rest, all)

abbrev pub everybody : Participant → Bool
everybody p = true

abbrev pub put_out : Participant → Participant
put_out p = record p { role = role_none; affiliation = affil_none }

-- <destroy>: every occupant goes.
unfoldable pub destroy_room : Room → Owned
unfolding mark_where
destroy_room room =
    let (entries, affected) = mark_where everybody put_out none room.participants.entries [] in
    destroyed
      (record room {
        flags = record room.flags { destroyed = true };
        participants = record room.participants { entries = entries };
      })
      affected

abbrev pub non_member : Participant → Bool
non_member p = ltb p.affiliation affil_member

abbrev pub without_role : Participant → Participant
without_role p = record p { role = role_none }

-- After the form is read: in a room for members only the others go.
unfoldable pub apply_policy : Room → Owned
unfolding mark_where
apply_policy room =
    let (entries, affected) =
      if room.flags.members_only
      then mark_where non_member without_role
          (some (lit "<reason>Room policy switched to members-only</reason>"))
          room.participants.entries []
      else (room.participants.entries, []) in
    configured (record room { participants = record room.participants { entries = entries } })
      affected

-- <x>: the form, unless the node is empty. `room_config_parse` never fails.
unfoldable pub configure : Bytes → AclConfig → Participant → Room → Node → Outcome Owned
unfolding apply_policy room_config_parse xmlfsm_skip_attrs
configure mem acl sender room n = do
  (inside, q) ← xmlfsm_skip_attrs mem n.node.start
  parsed ←
      (if inside
        then room_config_parse mem (record { start = q; stop = n.node.stop })
            (acl_role acl sender.jid) room
        else ok room)
  ok (apply_policy parsed)

unfoldable pub owner_nodes : ℕ → Bytes → AclConfig → Participant → Room → Span → Outcome Owned
unfolding destroy_room configure xmlfsm_next_sibling
owner_nodes zero mem acl sender room b = fault out_of_fuel
owner_nodes (suc fuel) mem acl sender room b = do
  sibling ← xmlfsm_next_sibling mem b
  elim sibling [
    | none ↦ ok unknown
    | some n ↦ elim (bytes_eq (lit "destroy") (slice mem n.node_name)) [
      | true ↦ ok (destroy_room room)
      | false ↦ elim (bytes_eq (lit "x") (slice mem n.node_name)) [
        | true ↦ configure mem acl sender room n
        | false ↦ owner_nodes fuel mem acl sender room n.buffer
      ]
    ]
  ]

-- The loop over the nodes of the query.
unfoldable pub owner_query : Bytes → AclConfig → Participant → Room → Span → Outcome Owned
unfolding owner_nodes
owner_query mem acl sender room b = owner_nodes (length mem + 1) mem acl sender room b
