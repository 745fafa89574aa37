-- ===== src/Builder/Exact.antt =====
-- What `builder_build` writes, against the tree of the stanza.
use mukite.Common.{◌≤◌, ◌≡◌, sym, ◌∙◌, subst, true, Bytes, [], append-nil, ok, length}
use mukite.Packet.{BuilderPacket}
use mukite.Builder.{BuilderBuffer, Push}
use mukite.Builder.Times.{Clock}
use mukite.Builder.Stanza.{is_stanza, builder_build}
use mukite.Builder.Tree.{Tree, print}
use mukite.Builder.StanzaTree.{content, stanza_tree}
use mukite.Builder.Writes.{Adds, Writes}
use mukite.Builder.StanzaText.{builder_build-Writes}

Writes-Adds :
    (m : Push) (f : Bytes → Bytes)
    → Writes m f
    → (b : BuilderBuffer) → length b.text ≤ b.size
    → Adds m (f []) b
Writes-Adds m f w b h = subst (λ t. Adds m t b) (sym (w.before [] ∙ append-nil w.text)) (w.adds b h)

-- Let a packet name a message, a presence or an iq, and hold in its union what its kind says, which
-- its content `t` then describes. `builder_build` adds the text of the stanza's tree to the buffer
-- and returns TRUE, if the buffer has room for it; and otherwise it returns FALSE, with no more in
-- the buffer than it has room for.
pub builder_build-Adds :
    (c : Clock) (p : BuilderPacket) (t : Tree) (b : BuilderBuffer)
    → is_stanza p.name ≡ true
    → content c p ≡ ok t
    → length b.text ≤ b.size
    → Adds (builder_build c p) (print (stanza_tree p t) []) b
builder_build-Adds c p t b known e h =
    Writes-Adds (builder_build c p) (print (stanza_tree p t)) (builder_build-Writes c p known t e) b
      h
