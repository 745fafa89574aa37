-- ===== src/Room/Config/Fuel.antt =====
-- The fuel of the loops of the form's reader.
use mukite.Common.{
  bind-Terminates, Terminates, ℕ, zero, suc, ◌+◌, ◌<◌, Bool-cases, Option-cases, inl, inr, arith,
  length, lit, Bytes, bytes_eq,
}
use mukite.Buffer.{BufferPtr}
use mukite.Xmlfsm.{Span, slice, xmlfsm_skip_attrs, xmlfsm_skipto_attr}
use mukite.Room.{Room}
use mukite.Room.Config.{config_values, config_field, config_fields, room_config_parse}
use mukite.Xmlfsm.Fuel.{xmlfsm_skip_attrs-Terminates, xmlfsm_skipto_attr-Terminates}
use mukite.Xmlfsm.Siblings.{siblings-Terminates}

values-Terminates :
    (fuel : ℕ) (mem : Bytes) (b : Span) (var : BufferPtr) (acl : ℕ) (room : Room)
    → length mem < fuel + b.start
    → 0 < fuel
    → Terminates (config_values fuel mem b var acl room)
unfolding config_values
values-Terminates zero mem b var acl room h pos = absurd (omega arith)
values-Terminates (suc fuel) mem b var acl room h pos =
    siblings-Terminates mem b _ tt (λ n further fits.
      elim (Bool-cases (bytes_eq (lit "value") (slice mem n.node_name))) [
        | inr other ↦ rw other (
            values-Terminates fuel mem n.buffer var acl room (omega (arith, h, further))
              (omega (arith, h, further, fits)))
        | inl value ↦ rw value (
            bind-Terminates (xmlfsm_skip_attrs mem n.node.start) _
              (xmlfsm_skip_attrs-Terminates mem n.node.start)
              (λ tag.
                values-Terminates fuel mem n.buffer var acl _ (omega (arith, h, further))
                  (omega (arith, h, further, fits))))
      ])

field-Terminates :
    (mem : Bytes) (node : Span) (acl : ℕ) (room : Room)
    → Terminates (config_field mem node acl room)
unfolding config_field
field-Terminates mem node acl room =
    bind-Terminates (xmlfsm_skipto_attr (lit "var") mem node.start) _
      (xmlfsm_skipto_attr-Terminates (lit "var") mem node.start)
      (λ found. elim (Option-cases found.0) [
        | inl missing ↦ rw missing tt
        | inr (attr, e) ↦ rw e (
            bind-Terminates (xmlfsm_skip_attrs mem found.1) _
              (xmlfsm_skip_attrs-Terminates mem found.1)
              (λ tag. elim (Bool-cases tag.0) [
                | inr closed ↦ rw closed tt
                | inl opened ↦ rw opened (
                    values-Terminates (length mem + 1) mem
                      (record { start = tag.1; stop = node.stop }) _ acl room (omega arith)
                      (omega arith))
              ]))
      ])

fields-Terminates :
    (fuel : ℕ) (mem : Bytes) (b : Span) (acl : ℕ) (room : Room)
    → length mem < fuel + b.start
    → 0 < fuel
    → Terminates (config_fields fuel mem b acl room)
unfolding config_fields
fields-Terminates zero mem b acl room h pos = absurd (omega arith)
fields-Terminates (suc fuel) mem b acl room h pos =
    siblings-Terminates mem b _ tt (λ n further fits.
      elim (Bool-cases (bytes_eq (lit "field") (slice mem n.node_name))) [
        | inr other ↦ rw other (
            fields-Terminates fuel mem n.buffer acl room (omega (arith, h, further))
              (omega (arith, h, further, fits)))
        | inl field ↦ rw field (
            bind-Terminates (config_field mem n.node acl room) _
              (field-Terminates mem n.node acl room)
              (λ changed.
                fields-Terminates fuel mem n.buffer acl changed (omega (arith, h, further))
                  (omega (arith, h, further, fits))))
      ])

-- The loops over the fields of an owner's form, over the values of a field and over their attributes end
-- within the rounds that the model gives them, whatever the block holds.
pub room_config_parse-Terminates :
    (mem : Bytes) (form : Span) (acl : ℕ) (room : Room)
    → Terminates (room_config_parse mem form acl room)
unfolding room_config_parse
room_config_parse-Terminates mem form acl room =
    fields-Terminates (length mem + 1) mem form acl room (omega arith) (omega arith)
