-- ===== src/Room/Query/Ends.antt =====
-- The fuel of the loops over the items of a query.
use mukite.Common.{
  ℕ, zero, suc, ◌+◌, ◌<◌, ◌≤◌, Bool, true, false, not, ◌||◌, Option, none, some, List, [], ◌∷◌,
  length, ltb, if-cases, Option-cases, Bool-cases, inl, inr, Outcome, ok, Meets, bind-Meets,
  Terminates, bind-Terminates, Bytes, lit, bytes_eq, arith,
}
use mukite.Buffer.{BufferPtr}
use mukite.Acl.{AclConfig}
use mukite.Affiliation.{
  Affiliations, affiliationss_get_by_jid, affiliations_by_cast, affiliationss_add, affil_admin,
}
use mukite.Participant.{Participant}
use mukite.Xmlfsm.{
  Span, Node, slice, AttrState, parse_success, node_empty, node_noattr, xmlfsm_next_attr,
  xmlfsm_skipto_node,
}
use mukite.Xmlfsm.Fuel.{next_attr-Advanced, Advanced}
use mukite.Xmlfsm.Siblings.{siblings-Meets, xmlfsm_skipto_node-Terminates}
use mukite.Room.{Room}
use mukite.Room.Errors.{privilege_level}
use mukite.Room.Presence.Ends.{get_by_jid-Terminates}
use mukite.Room.Query.Items.{
  AdminItem, unchanged, take_item_attr, item_attrs, item_reason, read_item, next_item, NextItem,
  no_item, bad_item, item, next_muc_admin_item,
}
use mukite.Room.Query.Admin.{
  refused, reaffiliated, reaffiliate, set_affiliation, is_malformed, apply_item,
}

-- What the loop over an item's attributes does with the state of `xmlfsm_next_attr`.
state-Terminates :
    (mem : Bytes) (t : AdminItem) (p : ℕ)
    (again : AdminItem → ℕ → Outcome (Option (AdminItem × Bool × ℕ)))
    → ((u : AdminItem) (q : ℕ) → p < q → q ≤ length mem → Terminates (again u q))
    → (r : AttrState × ℕ) → Advanced mem p r
    → Terminates (elim r.0 [
      | parse_success attr ↦ elim (take_item_attr mem t attr) [
        | none ↦ ok none
        | some u ↦ again u r.1
      ]
      | node_empty ↦ ok (some (t, false, r.1))
      | node_noattr ↦ ok (some (t, true, r.1))
    ])
state-Terminates mem t p again h (parse_success attr, q) a =
    elim (Option-cases (take_item_attr mem t attr)) [
      | inl bad ↦ rw bad tt
      | inr (u, e) ↦ rw e (h u q a.0 a.1)
    ]
state-Terminates mem t p again h (node_empty, q) a = tt
state-Terminates mem t p again h (node_noattr, q) a = tt

item_attrs-Terminates :
    (fuel : ℕ) (mem : Bytes) (t : AdminItem) (p : ℕ)
    → length mem < fuel + p
    → 0 < fuel
    → Terminates (item_attrs fuel mem t p)
unfolding item_attrs
item_attrs-Terminates zero mem t p h pos = absurd (omega arith)
item_attrs-Terminates (suc fuel) mem t p h pos =
    bind-Meets (Advanced mem p) (λ r. Unit {0}) (xmlfsm_next_attr mem p) _
      (next_attr-Advanced mem p)
      (state-Terminates mem t p (λ u q. item_attrs fuel mem u q)
        (λ u q further fits.
          item_attrs-Terminates fuel mem u q (omega (arith, h, further))
            (omega (arith, h, further, fits))))

item_reason-Terminates :
    (mem : Bytes) (inside : Bool) (b : Span) → Terminates (item_reason mem inside b)
unfolding item_reason
item_reason-Terminates mem false b = tt
item_reason-Terminates mem true b =
    bind-Terminates (xmlfsm_skipto_node (lit "reason") mem b) _
      (xmlfsm_skipto_node-Terminates (lit "reason") mem b)
      (λ found. elim (Option-cases found) [ inl missing ↦ rw missing tt | inr (s, e) ↦ rw e tt ])

-- An item leaves what is behind it.
abbrev pub Left : Bytes → ℕ → NextItem → Type 0
Left mem p no_item = Unit {0}
Left mem p bad_item = Unit {0}
Left mem p (item t rest) = (p < rest.start) × (rest.start ≤ length mem)

read_item-Left :
    (mem : Bytes) (p : ℕ) (n : Node)
    → p < n.buffer.start
    → n.buffer.start ≤ length mem
    → Meets (Left mem p) (read_item mem n)
unfolding read_item
read_item-Left mem p n further fits =
    bind-Meets (λ r. Unit {0}) (Left mem p) (item_attrs (length mem + 1) mem unchanged n.node.start)
      _
      (item_attrs-Terminates (length mem + 1) mem unchanged n.node.start (omega arith)
        (omega arith))
      (λ read u. elim (Option-cases read) [
        | inl bad ↦ rw bad tt
        | inr (r, e) ↦ rw e (
            bind-Meets (λ reason. Unit {0}) (Left mem p)
              (item_reason mem r.1 (record { start = r.2; stop = n.node.stop })) _
              (item_reason-Terminates mem r.1 (record { start = r.2; stop = n.node.stop }))
              (λ reason w. (further, fits)))
      ])

next_item-Left :
    (fuel : ℕ) (mem : Bytes) (p : ℕ) (b : Span)
    → p ≤ b.start
    → length mem < fuel + b.start
    → 0 < fuel
    → Meets (Left mem p) (next_item fuel mem b)
unfolding next_item
next_item-Left zero mem p b behind h pos = absurd (omega arith)
next_item-Left (suc fuel) mem p b behind h pos =
    siblings-Meets (Left mem p) mem b _ tt (λ n further fits.
      elim (Bool-cases (bytes_eq (lit "item") (slice mem n.node_name))) [
        | inr other ↦ rw other (
            next_item-Left fuel mem p n.buffer (omega (arith, further)) (omega (arith, h, further))
              (omega (arith, h, further, fits)))
        | inl found ↦ rw found (read_item-Left mem p n (omega (arith, further)) fits)
      ])

pub next_muc_admin_item-Left :
    (mem : Bytes) (b : Span) → Meets (Left mem b.start) (next_muc_admin_item mem b)
unfolding next_muc_admin_item
next_muc_admin_item-Left mem b =
    next_item-Left (length mem + 1) mem b.start b (omega arith) (omega arith) (omega arith)

reaffiliate-Terminates :
    (lists : Affiliations) (acl : AclConfig) (reason : BufferPtr) (ps : List Participant)
    (affected : List ℕ)
    → Terminates (reaffiliate lists acl reason ps affected)
unfolding reaffiliate
reaffiliate-Terminates lists acl reason [] affected = tt
reaffiliate-Terminates lists acl reason (p ∷ ps) affected =
    bind-Terminates (affiliationss_get_by_jid (affiliations_by_cast lists) acl p.jid) _
      (get_by_jid-Terminates (affiliations_by_cast lists) acl p.jid)
      (λ a.
        let m = reaffiliate lists acl reason ps (reaffiliated a reason p affected).1 in
        bind-Terminates m _
          (reaffiliate-Terminates lists acl reason ps (reaffiliated a reason p affected).1)
          (λ rest. tt))

set_affiliation-Terminates :
    (acl : AclConfig) (room : Room) (sender : Participant) (affected : List ℕ) (target : AdminItem)
    (a : ℕ)
    → Terminates (set_affiliation acl room sender affected target a)
unfolding set_affiliation
set_affiliation-Terminates acl room sender affected target a =
    let added = affiliationss_add room.affiliations (some sender) a target.jid target.reason_node in
    if-cases Terminates (ltb sender.affiliation affil_admin || not added.1)
      {x = ok (refused room privilege_level)} tt
      (bind-Terminates
        (reaffiliate added.0 acl target.reason_node room.participants.entries affected) _
        (reaffiliate-Terminates added.0 acl target.reason_node room.participants.entries affected)
        (λ r. tt))

pub apply_item-Terminates :
    (acl : AclConfig) (room : Room) (sender : Participant) (affected : List ℕ) (target : AdminItem)
    → Terminates (apply_item acl room sender affected target)
unfolding apply_item
apply_item-Terminates acl room sender affected target =
    if-cases Terminates (is_malformed target) tt (elim (Option-cases target.role) [
      | inr (role, e) ↦ rw e tt
      | inl same ↦ rw same (elim (Option-cases target.affiliation) [
        | inl neither ↦ rw neither tt
        | inr (a, e) ↦ rw e (set_affiliation-Terminates acl room sender affected target a)
      ])
    ])
