-- ===== src/Room/Config/Forms.antt =====
-- What a whole form may change of a room.
use mukite.Common.{
  Ensures, bind-Ensures, ℕ, zero, suc, ◌+◌, Bool, Bool-cases, Option-cases, true, false, inl, inr,
  length, lit, if◌then◌else◌, Outcome, ok, fault, ◌>>=◌, Bytes, bytes_eq,
}
use mukite.Buffer.{BufferPtr}
use mukite.Xmlfsm.{Span, slice, xmlfsm_skip_attrs, xmlfsm_skipto_attr, xmlfsm_next_sibling}
use mukite.Room.{Room}
use mukite.Room.Config.{
  option_by_name, room_config_option_set, config_values, config_field, config_fields,
  room_config_parse,
}
use mukite.Room.Config.Limits.{Configured, unchanged, composed, set_option-Configured}

option_set-Configured :
    (room : Room) (var value : BufferPtr) (acl : ℕ)
    → Configured acl room (room_config_option_set room var value acl)
unfolding room_config_option_set
option_set-Configured room var value acl = elim (Option-cases (option_by_name var)) [
  | inl unknown ↦ rw (room_config_option_set, unknown) (unchanged acl room)
  | inr (option, e) ↦ rw (room_config_option_set, e) (set_option-Configured room option value acl)
]

abbrev Keeps : ℕ → Room → Outcome Room → Type 0
Keeps acl room = Ensures (Configured acl room)

set_if :
    (open_tag : Bool) (before room : Room) (var value : BufferPtr) (acl : ℕ)
    → Configured acl before room
    → Configured acl before (if open_tag then room_config_option_set room var value acl else room)
set_if true before room var value acl c =
    composed acl before room _ c (option_set-Configured room var value acl)
set_if false before room var value acl c = c

values-Configured :
    (fuel : ℕ) (mem : Bytes) (b : Span) (var : BufferPtr) (acl : ℕ) (before room : Room)
    → Configured acl before room
    → Keeps acl before (config_values fuel mem b var acl room)
unfolding config_values
values-Configured zero mem b var acl before room c = tt
values-Configured (suc fuel) mem b var acl before room c =
    bind-Ensures _ (xmlfsm_next_sibling mem b) _ (λ sibling. elim (Option-cases sibling) [
      | inl end ↦ rw end c
      | inr (n, e) ↦ rw e (elim (Bool-cases (bytes_eq (lit "value") (slice mem n.node_name))) [
        | inr other ↦ rw other (values-Configured fuel mem n.buffer var acl before room c)
        | inl value ↦ rw value (
            bind-Ensures _ (xmlfsm_skip_attrs mem n.node.start) _ (λ tag.
              values-Configured fuel mem n.buffer var acl before _
                (set_if tag.0 before room var _ acl c)))
      ])
    ])

field-Configured :
    (mem : Bytes) (node : Span) (acl : ℕ) (before room : Room)
    → Configured acl before room
    → Keeps acl before (config_field mem node acl room)
unfolding config_field
field-Configured mem node acl before room c =
    bind-Ensures _ (xmlfsm_skipto_attr (lit "var") mem node.start) _ (λ found.
      elim (Option-cases found.0) [
        | inl missing ↦ rw missing c
        | inr (attr, e) ↦ rw e (
            bind-Ensures _ (xmlfsm_skip_attrs mem found.1) _ (λ tag. elim (Bool-cases tag.0) [
              | inl opened ↦ rw opened (
                  values-Configured (length mem + 1) mem
                    (record { start = tag.1; stop = node.stop }) _ acl before room c)
              | inr closed ↦ rw closed c
            ]))
      ])

bind-Keeps :
    (acl : ℕ) (before : Room) (m : Outcome Room) (k : Room → Outcome Room)
    → Keeps acl before m
    → ((room : Room) → Configured acl before room → Keeps acl before (k room))
    → Keeps acl before (m >>= k)
bind-Keeps acl before (ok room) k c h = h room c
bind-Keeps acl before (fault f) k c h = tt

fields-Configured :
    (fuel : ℕ) (mem : Bytes) (b : Span) (acl : ℕ) (before room : Room)
    → Configured acl before room
    → Keeps acl before (config_fields fuel mem b acl room)
unfolding config_fields
fields-Configured zero mem b acl before room c = tt
fields-Configured (suc fuel) mem b acl before room c =
    bind-Ensures _ (xmlfsm_next_sibling mem b) _ (λ sibling. elim (Option-cases sibling) [
      | inl end ↦ rw end c
      | inr (n, e) ↦ rw e (elim (Bool-cases (bytes_eq (lit "field") (slice mem n.node_name))) [
        | inr other ↦ rw other (fields-Configured fuel mem n.buffer acl before room c)
        | inl field ↦ rw field (
            bind-Keeps acl before (config_field mem n.node acl room) _
              (field-Configured mem n.node acl before room c)
              (λ changed d. fields-Configured fuel mem n.buffer acl before changed d))
      ])
    ])

-- Whatever an owner's form holds, reading it leaves the room's name, occupants, affiliations, history and
-- subject as they are, and so the flags that no option names; the room's persistence too, if the owner's
-- rank is below ACL_MUC_PERSIST; a new limit of occupants is between 1 and 1024, a new default role is that of a
-- visitor or a participant, and a new title or description has at most 8192 bytes. The call
-- may fault.
pub room_config_parse-Configured :
    (mem : Bytes) (form : Span) (acl : ℕ) (room : Room)
    → Ensures (Configured acl room) (room_config_parse mem form acl room)
unfolding room_config_parse
room_config_parse-Configured mem form acl room =
    fields-Configured (length mem + 1) mem form acl room room (unchanged acl room)
