-- ===== src/Builder/StanzaText.antt =====
-- What `builder_build` of builder.c writes.
use mukite.Common.{
  ℕ, ◌≡◌, refl, sym, ap, ◌∙◌, Bool, true, false, none, some, [], ◌∷◌, ◌++◌, Bytes, lit, ◌==◌,
  if◌then◌else◌, Bool-cases, inl, inr, Outcome, ok, append_assoc,
}
use mukite.Buffer.{BufferPtr, contents}
use mukite.Jid.{Jid, jid_empty, jid_str}
use mukite.Packet.{BuilderPacket, stanza_iq, stanza_presence, stanza_error}
use mukite.Builder.{Push, push}
use mukite.Builder.Times.{Clock, stamp, gmtime, push_time, build_strftime}
use mukite.Builder.Stanza.{
  push_node, push_from_nick, push_to, type_word, push_type, push_content, push_delay, stanza_word,
  is_stanza, push_open, push_close, builder_build,
}
use mukite.Builder.Tree.{Tree, nil, print, print_attrs, quote, optional}
use mukite.Builder.Reference.{jid_value}
use mukite.Builder.StanzaTree.{
  node_part, nick_part, sender, content, delay_tree, type_value, stanza_tree,
}
use mukite.Builder.Writes.{Writes, skip-Writes, push-Writes, push-Refuses, ◌▷◌, as_text}
use mukite.Builder.Early.{early_then, time-Early, skip-Early}
use mukite.Builder.Parts.{after_quote, push_if-Writes, if-Writes}
use mukite.Builder.ContentText.{
  Described, iso_time-Writes, push_error-Described, push_presence-Described, push_query-Described,
}

if-Described :
    (b : Bool) (m k : Push) (s t : Outcome Tree)
    → Described m s
    → Described k t
    → Described (if b then m else k) (if b then s else t)
if-Described true m k s t v w = v
if-Described false m k s t v w = w

push_content-Described :
    (c : Clock) (p : BuilderPacket) → Described (push_content c p) (content c p)
unfolding push_content
push_content-Described c p =
    if-Described (p.type == stanza_error) _ _ _ _ (push_error-Described p.sys_data) (
      if-Described (p.name == stanza_presence) _ _ _ _ (push_presence-Described p.sys_data) (
        if-Described (p.name == stanza_iq) _ _ _ _
          (push_query-Described c p.from_host p.iq_type p.sys_data) skip-Writes))

push_node-Writes : (n : BufferPtr) → Writes (push_node n) (λ r. node_part n ++ r)
unfolding push_node
push_node-Writes none = skip-Writes
push_node-Writes (some n) =
    as_text (push-Writes n ▷ push-Writes _) (λ r. append_assoc n (lit "@") r)

push_from_nick-Writes : (n : BufferPtr) → Writes (push_from_nick n) (λ r. nick_part n ++ r)
unfolding push_from_nick
push_from_nick-Writes none = skip-Writes
push_from_nick-Writes (some n) = as_text (push-Writes _ ▷ push-Writes n) (λ r. refl)

push_delay-Writes : (p : BuilderPacket) → Writes (push_delay p) (print (delay_tree p))
unfolding push_delay build_strftime
push_delay-Writes p = if-Writes (p.delay == 0) nil _ skip-Writes (
    as_text
      (push-Writes _
        ▷ push_node-Writes p.from_node
        ▷ push-Writes (contents p.from_host)
        ▷ push-Writes _
        ▷ iso_time-Writes p.delay
        ▷ push-Writes _
        ▷ early_then (build_strftime p.delay false) (push _) (stamp false (gmtime p.delay))
            (skip-Early (push_time (stamp false (gmtime p.delay))) (stamp false (gmtime p.delay))
              (time-Early (stamp false (gmtime p.delay))))
            (push-Writes _) (push-Refuses 39 _))
      (λ r.
        ap (λ x. lit "<delay xmlns='urn:xmpp:delay' from='" ++ x)
          (append_assoc (node_part p.from_node) (contents p.from_host) _)))

push_to-Writes : (j : Jid) → Writes (push_to j) (after_quote (lit "to") (jid_value j))
unfolding push_to
push_to-Writes j = elim (Bool-cases (jid_empty j)) [
  | inl e ↦ rw e skip-Writes
  | inr e ↦ rw e (as_text (push-Writes _ ▷ push-Writes (jid_str j)) (λ r. refl))
]

push_type-Writes :
    (p : BuilderPacket) → Writes (push_type p.name p.type) (after_quote (lit "type") (type_value p))
unfolding push_type
push_type-Writes p = elim (Bool-cases (p.type == 0)) [
  | inl e ↦ rw e skip-Writes
  | inr e ↦ rw e (as_text (push-Writes _ ▷ push-Writes (type_word p.name p.type)) (λ r. refl))
]

push_open-Writes :
    (name : ℕ)
    → is_stanza name ≡ true
    → Writes (push_open name) (λ r. b'<' ∷ (stanza_word name ++ r))
unfolding push_open
push_open-Writes name e = rw e (as_text (push-Writes _) (λ r. refl))

push_close-Writes :
    (name : ℕ)
    → is_stanza name ≡ true
    → Writes (push_close name) (λ r. lit "</" ++ (stanza_word name ++ (lit ">" ++ r)))
unfolding push_close
push_close-Writes name e = rw e (
    as_text (push-Writes _)
      (λ r. ap (λ x. lit "</" ++ x) (sym (append_assoc (stanza_word name) (lit ">") r))))

-- The quote after the sender closes the last attribute that is there.
attrs_end :
    (to type : BufferPtr) (r : Bytes)
    → quote ∷ print_attrs (optional (lit "to") to ∷ optional (lit "type") type ∷ []) (b'>' ∷ r)
      ≡ after_quote (lit "to") to (after_quote (lit "type") type (lit "'>" ++ r))
attrs_end none none r = refl
attrs_end none (some b) r = refl
attrs_end (some a) none r = refl
attrs_end (some a) (some b) r = refl

sender_text :
    (p : BuilderPacket) (r : Bytes)
    → sender p ++ r
      ≡ node_part p.from_node ++ (contents p.from_host ++ (nick_part p.from_nick ++ r))
sender_text p r = simp (append_assoc)

module _ (c : Clock) (p : BuilderPacket) (name_known : is_stanza p.name ≡ true) where
  -- A stanza with a content that the code writes.
  stanza-Writes :
      (t : Tree)
      → Writes (push_content c p) (print t)
      → Writes (builder_build c p) (print (stanza_tree p t))
  unfolding builder_build
  stanza-Writes t w =
      as_text
        (push_open-Writes p.name name_known
          ▷ push_if-Writes p.header
          ▷ push-Writes _
          ▷ push_node-Writes p.from_node
          ▷ push-Writes (contents p.from_host)
          ▷ push_from_nick-Writes p.from_nick
          ▷ push_to-Writes p.to
          ▷ push_type-Writes p
          ▷ push-Writes _
          ▷ push_if-Writes p.user_data
          ▷ w
          ▷ push_delay-Writes p
          ▷ push_close-Writes p.name name_known)
        (λ r.
          ap (λ x. b'<' ∷ (stanza_word p.name ++ (contents p.header ++ (lit " from='" ++ x))))
            (sender_text p _
              ∙ ap
                  (λ x.
                    node_part p.from_node ++ (contents p.from_host ++ (nick_part p.from_nick ++ x)))
                  (attrs_end (jid_value p.to) (type_value p) _)))

  pub builder_build-Writes :
      (t : Tree) → content c p ≡ ok t → Writes (builder_build c p) (print (stanza_tree p t))
  builder_build-Writes t e = stanza-Writes t (rw e at (push_content-Described c p))
