-- ===== src/Room/Query/Items.antt =====
-- The items of a muc#admin query: `role_by_name` and `next_muc_admin_item` of room.c.
use mukite.Common.{
  ℕ, zero, suc, ◌+◌, Bool, true, false, Option, none, some, Bytes, lit, if◌then◌else◌, length,
  Outcome, ok, fault, out_of_fuel, ◌>>=◌, bytes_eq,
}
use mukite.Buffer.{BufferPtr, bpt_eq}
use mukite.Jid.{Jid, jid_init, jid_struct}
use mukite.Affiliation.{affiliation_by_name}
use mukite.Xmlfsm.{
  Span, XmlAttr, Node, slice, parse_success, node_empty, node_noattr, xmlfsm_next_attr,
  xmlfsm_next_sibling, xmlfsm_skipto_node,
}
use mukite.Packet.{bytes_at}
use mukite.Room.{role_none, role_visitor, role_participant, role_moderator}

-- `role_by_name`
unfoldable pub role_by_name : BufferPtr → Option ℕ
role_by_name name =
    if bpt_eq (lit "none") name
    then some role_none
    else if bpt_eq (lit "visitor") name
    then some role_visitor
    else if bpt_eq (lit "participant") name
    then some role_participant
    else if bpt_eq (lit "moderator") name
    then some role_moderator
    else none

-- `MucAdminItem` as it is read. AFFIL_UNCHANGED and ROLE_UNCHANGED are `none`.
pub record AdminItem : Type 0 where
  pub affiliation : Option ℕ
  pub role : Option ℕ
  pub jid : Jid
  pub nick : BufferPtr
  pub reason_node : BufferPtr

abbrev pub unchanged : AdminItem
unchanged = record {
  affiliation = none;
  role = none;
  jid = jid_init;
  nick = none;
  reason_node = none;
}

-- A name that is known, or the end of the function.
abbrev pub set_item_affiliation : AdminItem → Option ℕ → Option AdminItem
set_item_affiliation t none = none
set_item_affiliation t (some a) = some (record t { affiliation = some a })

abbrev pub set_item_role : AdminItem → Option ℕ → Option AdminItem
set_item_role t none = none
set_item_role t (some r) = some (record t { role = some r })

abbrev pub set_item_jid : AdminItem → Jid × Bool → Option AdminItem
set_item_jid t (j, false) = none
set_item_jid t (j, true) = some (record t { jid = j })

-- What an attribute sets, or none where it is malformed.
unfoldable pub take_item_attr : Bytes → AdminItem → XmlAttr → Option AdminItem
unfolding affiliation_by_name role_by_name jid_struct
take_item_attr mem t attr =
    if bytes_eq (lit "affiliation") (slice mem attr.name)
    then set_item_affiliation t (affiliation_by_name (bytes_at mem (some attr.value)))
    else if bytes_eq (lit "role") (slice mem attr.name)
    then set_item_role t (role_by_name (bytes_at mem (some attr.value)))
    else if bytes_eq (lit "jid") (slice mem attr.name)
    then set_item_jid t (jid_struct (bytes_at mem (some attr.value)))
    else if bytes_eq (lit "nick") (slice mem attr.name)
    then some (record t { nick = bytes_at mem (some attr.value) })
    else some t

-- The loop over the attributes of an item: the item, whether there may be nodes inside, and the
-- position behind the tag.
unfoldable pub item_attrs : ℕ → Bytes → AdminItem → ℕ → Outcome (Option (AdminItem × Bool × ℕ))
unfolding xmlfsm_next_attr take_item_attr
item_attrs zero mem t p = fault out_of_fuel
item_attrs (suc fuel) mem t p = do
  (state, q) ← xmlfsm_next_attr mem p
  elim state [
    | parse_success attr ↦ elim (take_item_attr mem t attr) [
      | none ↦ ok none
      | some u ↦ item_attrs fuel mem u q
    ]
    | node_empty ↦ ok (some (t, false, q))
    | node_noattr ↦ ok (some (t, true, q))
  ]

-- `xmlfsm_skipto_node` for the reason.
unfoldable pub item_reason : Bytes → Bool → Span → Outcome BufferPtr
unfolding xmlfsm_skipto_node
item_reason mem false b = ok none
item_reason mem true b = do
  found ← xmlfsm_skipto_node (lit "reason") mem b
  elim found [ none ↦ ok none | some (s, behind) ↦ ok (bytes_at mem (some s)) ]

-- What `next_muc_admin_item` returns: FALSE, -1, or TRUE with the item and what is left of the nodes.
pub data NextItem : Type 0 where
  no_item bad_item : NextItem
  item : AdminItem → Span → NextItem

-- The body of the loop, for an <item> node.
unfoldable pub read_item : Bytes → Node → Outcome NextItem
unfolding item_attrs item_reason
read_item mem n = do
  read ← item_attrs (length mem + 1) mem unchanged n.node.start
  elim read [
    | none ↦ ok bad_item
    | some (t, inside, q) ↦ do
      reason ← item_reason mem inside (record { start = q; stop = n.node.stop })
      ok (item (record t { reason_node = reason }) n.buffer)
  ]

unfoldable pub next_item : ℕ → Bytes → Span → Outcome NextItem
unfolding xmlfsm_next_sibling read_item
next_item zero mem b = fault out_of_fuel
next_item (suc fuel) mem b = do
  sibling ← xmlfsm_next_sibling mem b
  elim sibling [
    | none ↦ ok no_item
    | some n ↦ elim (bytes_eq (lit "item") (slice mem n.node_name)) [
      | false ↦ next_item fuel mem n.buffer
      | true ↦ read_item mem n
    ]
  ]

-- `next_muc_admin_item`
unfoldable pub next_muc_admin_item : Bytes → Span → Outcome NextItem
unfolding next_item
next_muc_admin_item mem b = next_item (length mem + 1) mem b
