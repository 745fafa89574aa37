-- ===== src/Room/Presence/Fuel.antt =====
-- The fuel of the loops of `route_presence`.
use mukite.Common.{
  bind-Terminates, Terminates, some, none, Option, Bytes, lit, length, arith, zero, suc, bytes_eq,
  ◌<◌, ◌+◌, ℕ, Bool-cases, inl, inr,
}
use mukite.Room.Presence.{Span, parse_muc_node, muc_password}
use mukite.Buffer.{bpt_blank}
use mukite.Packet.{bytes_at}
use mukite.Xmlfsm.Fuel.{xmlfsm_skip_attrs-Terminates}
use mukite.Xmlfsm.Siblings.{siblings-Terminates, node_name-Terminates}
use mukite.Xmlfsm.{xmlfsm_node_name, xmlfsm_skip_attrs, slice}

password-Terminates :
    (fuel : ℕ) (mem : Bytes) (b : Span) (found : Option Span)
    → length mem < fuel + b.start
    → 0 < fuel
    → Terminates (muc_password fuel mem b found)
unfolding muc_password
password-Terminates zero mem b found h pos = absurd (omega arith)
password-Terminates (suc fuel) mem b found h pos = siblings-Terminates mem b _ tt (λ n further fits.
    elim (Bool-cases (bytes_eq (lit "password") (slice mem n.node_name))) [
      | inl named ↦ rw named (
          bind-Terminates (xmlfsm_skip_attrs mem n.node.start) _
            (xmlfsm_skip_attrs-Terminates mem n.node.start)
            (λ tag.
              password-Terminates fuel mem n.buffer _ (omega (arith, h, further))
                (omega (arith, h, further, fits))))
      | inr other ↦ rw other (elim (Bool-cases (bytes_eq (lit "history") (slice mem n.node_name))) [
        | inl history ↦ rw history (
            bind-Terminates (xmlfsm_skip_attrs mem n.node.start) _
              (xmlfsm_skip_attrs-Terminates mem n.node.start)
              (λ tag.
                password-Terminates fuel mem n.buffer found (omega (arith, h, further))
                  (omega (arith, h, further, fits))))
        | inr unknown ↦ rw unknown (
            password-Terminates fuel mem n.buffer found (omega (arith, h, further))
              (omega (arith, h, further, fits)))
      ])
    ])

pub parse_muc_node-Terminates : (mem : Bytes) (s : Option Span) → Terminates (parse_muc_node mem s)
unfolding parse_muc_node
parse_muc_node-Terminates mem none = tt
parse_muc_node-Terminates mem (some s) = elim (Bool-cases (bpt_blank (bytes_at mem (some s)))) [
  | inl blank ↦ rw blank tt
  | inr filled ↦ rw filled (
      bind-Terminates (xmlfsm_node_name mem s) _ (node_name-Terminates mem s) (λ name.
        bind-Terminates (xmlfsm_skip_attrs mem name.1) _ (xmlfsm_skip_attrs-Terminates mem name.1)
          (λ tag. elim (Bool-cases tag.0) [
            | inr closed ↦ rw closed tt
            | inl opened ↦ rw opened (
                password-Terminates (length mem + 1) mem (record { start = tag.1; stop = s.stop })
                  none (omega arith) (omega arith))
          ])))
]
