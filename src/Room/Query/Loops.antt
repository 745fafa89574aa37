-- ===== src/Room/Query/Loops.antt =====
-- The fuel of the loops over the nodes of a query.
use mukite.Common.{
  ℕ, zero, suc, ◌+◌, ◌<◌, ◌≤◌, List, length, Option-cases, Bool-cases, inl, inr, Outcome, ok, ◌>>=◌,
  bind-Meets, Terminates, bind-Terminates, Bytes, lit, bytes_eq, arith,
}
use mukite.Acl.{AclConfig, acl_role}
use mukite.Participant.{Participant}
use mukite.Xmlfsm.{Span, Node, slice, xmlfsm_skip_attrs, xmlfsm_skipto_attr}
use mukite.Xmlfsm.Fuel.{xmlfsm_skip_attrs-Terminates, xmlfsm_skipto_attr-Terminates}
use mukite.Xmlfsm.Siblings.{siblings-Terminates}
use mukite.Room.{Room}
use mukite.Room.Errors.{iq_bad}
use mukite.Room.Config.{room_config_parse}
use mukite.Room.Config.Fuel.{room_config_parse-Terminates}
use mukite.Room.Query.Items.{NextItem, no_item, bad_item, item, next_muc_admin_item}
use mukite.Room.Query.Admin.{Applied, done, refused, apply_item, admin_items, current}
use mukite.Room.Query.Owner.{configure, owner_nodes}
use mukite.Room.Query.Ends.{Left, next_muc_admin_item-Left, apply_item-Terminates}
use mukite.Room.Query.{find_query}

-- What the loop over the items does with an item.
items-Terminates :
    (mem : Bytes) (b : Span) (room : Room) (acl : AclConfig) (sender : Participant)
    (affected : List ℕ) (again : Span → Room → List ℕ → Outcome Applied)
    → ((rest : Span)
        → b.start < rest.start
        → rest.start ≤ length mem
        → (r : Room) (more : List ℕ) → Terminates (again rest r more))
    → (next : NextItem) → Left mem b.start next
    → Terminates (elim next [
      | no_item ↦ ok (done room affected)
      | bad_item ↦ ok (refused room iq_bad)
      | item target rest ↦ do
        applied ← apply_item acl room sender affected target
        elim applied [ refused r e ↦ ok (refused r e) | done r more ↦ again rest r more ]
    ])
items-Terminates mem b room acl sender affected again h no_item l = tt
items-Terminates mem b room acl sender affected again h bad_item l = tt
items-Terminates mem b room acl sender affected again h (item target rest) l =
    bind-Terminates (apply_item acl room sender affected target) _
      (apply_item-Terminates acl room sender affected target) applied-Terminates
  where
    applied-Terminates :
        (a : Applied)
        → Terminates (elim a [ refused r e ↦ ok (refused r e) | done r more ↦ again rest r more ])
    applied-Terminates (refused r e) = tt
    applied-Terminates (done r more) = h rest l.0 l.1 r more

pub admin_items-Terminates :
    (fuel : ℕ) (mem : Bytes) (acl : AclConfig) (sender : Participant) (room : Room)
    (affected : List ℕ) (b : Span)
    → length mem < fuel + b.start
    → 0 < fuel
    → Terminates (admin_items fuel mem acl sender room affected b)
unfolding admin_items
admin_items-Terminates zero mem acl sender room affected b h pos = absurd (omega arith)
admin_items-Terminates (suc fuel) mem acl sender room affected b h pos =
    bind-Meets (Left mem b.start) (λ r. Unit {0}) (next_muc_admin_item mem b) _
      (next_muc_admin_item-Left mem b)
      (items-Terminates mem b room acl (current room.participants.entries sender) affected
        (λ rest r more. admin_items fuel mem acl sender r more rest)
        (λ rest further fits r more.
          admin_items-Terminates fuel mem acl sender r more rest (omega (arith, h, further))
            (omega (arith, h, further, fits))))

configure-Terminates :
    (mem : Bytes) (acl : AclConfig) (sender : Participant) (room : Room) (n : Node)
    → Terminates (configure mem acl sender room n)
unfolding configure
configure-Terminates mem acl sender room n =
    bind-Terminates (xmlfsm_skip_attrs mem n.node.start) _
      (xmlfsm_skip_attrs-Terminates mem n.node.start)
      (λ tag. elim (Bool-cases tag.0) [
        | inl inside ↦ rw inside (
            bind-Terminates
              (room_config_parse mem (record { start = tag.1; stop = n.node.stop })
                (acl_role acl sender.jid) room)
              _
              (room_config_parse-Terminates mem (record { start = tag.1; stop = n.node.stop })
                (acl_role acl sender.jid) room)
              (λ r. tt))
        | inr empty ↦ rw empty tt
      ])

pub owner_nodes-Terminates :
    (fuel : ℕ) (mem : Bytes) (acl : AclConfig) (sender : Participant) (room : Room) (b : Span)
    → length mem < fuel + b.start
    → 0 < fuel
    → Terminates (owner_nodes fuel mem acl sender room b)
unfolding owner_nodes
owner_nodes-Terminates zero mem acl sender room b h pos = absurd (omega arith)
owner_nodes-Terminates (suc fuel) mem acl sender room b h pos =
    siblings-Terminates mem b _ tt (λ n further fits.
      elim (Bool-cases (bytes_eq (lit "destroy") (slice mem n.node_name))) [
        | inl destroy ↦ rw destroy tt
        | inr other ↦ rw other (elim (Bool-cases (bytes_eq (lit "x") (slice mem n.node_name))) [
          | inl x ↦ rw x (configure-Terminates mem acl sender room n)
          | inr skipped ↦ rw skipped (
              owner_nodes-Terminates fuel mem acl sender room n.buffer (omega (arith, h, further))
                (omega (arith, h, further, fits)))
        ])
      ])

pub find_query-Terminates :
    (fuel : ℕ) (mem : Bytes) (b : Span)
    → length mem < fuel + b.start
    → 0 < fuel
    → Terminates (find_query fuel mem b)
unfolding find_query
find_query-Terminates zero mem b h pos = absurd (omega arith)
find_query-Terminates (suc fuel) mem b h pos = siblings-Terminates mem b _ tt (λ n further fits.
    let rest =
      find_query-Terminates fuel mem n.buffer (omega (arith, h, further))
        (omega (arith, h, further, fits)) in
    elim (Bool-cases (bytes_eq (lit "query") (slice mem n.node_name))) [
      | inr other ↦ rw other rest
      | inl query ↦ rw query (
          bind-Terminates (xmlfsm_skipto_attr (lit "xmlns") mem n.node.start) _
            (xmlfsm_skipto_attr-Terminates (lit "xmlns") mem n.node.start)
            (λ found. elim (Option-cases found.0) [
              | inl missing ↦ rw missing rest
              | inr (attr, e) ↦ rw e (
                  bind-Terminates (xmlfsm_skip_attrs mem found.1) _
                    (xmlfsm_skip_attrs-Terminates mem found.1) (λ tag. tt))
            ]))
    ])
