-- ===== src/Packet/Parse.antt =====
-- `packet_parse` of packet.c: a stanza is read from the block that it stands in.
use mukite.Common.{
  ℕ, zero, suc, ◌+◌, ◌-◌, Bool, true, false, not, ◌&&◌, ◌||◌, Option, none, some, Bytes, lit, ◌==◌,
  if◌then◌else◌, length, bytes_eq, Outcome, ok, fault, out_of_fuel, ◌>>=◌,
}
use mukite.Buffer.{BufferPtr, bpt_null, bpt_blank, bpt_eq}
use mukite.Jid.{Jid, jid_init, jid_empty, jid_struct}
use mukite.Xmlfsm.{
  Span, XmlAttr, slice, Node, parse_success, node_empty, node_noattr, xmlfsm_next_attr,
  xmlfsm_node_name, xmlfsm_skipto_attr, xmlfsm_next_sibling,
}
use mukite.Packet.{
  IncomingPacket, stanza_iq, stanza_iq_get, stanza_iq_set, stanza_iq_result, stanza_message,
  stanza_message_chat, stanza_message_groupchat, stanza_presence, stanza_presence_unavailable,
  stanza_error,
}

-- A node that is kept; a second one of its kind drops the stanza. `none` is FALSE.
unfoldable pub set_muc_user : IncomingPacket → Node → Option Span → Option IncomingPacket
set_muc_user p n none =
    some (record p { muc_user = some (record { start = n.node_start; stop = n.node.stop }) })
set_muc_user p n (some s) = none

unfoldable pub set_muc : IncomingPacket → Node → Option Span → Option IncomingPacket
set_muc p n none =
    some (record p { muc = some (record { start = n.node_start; stop = n.node.stop }) })
set_muc p n (some s) = none

-- A node `x`, by its name space.
unfoldable pub set_by_xmlns : IncomingPacket → Node → Option XmlAttr → Option IncomingPacket
set_by_xmlns p n none = some p
set_by_xmlns p n (some attr) =
    let value = slice p.mem attr.value in
    if bytes_eq (lit "http://jabber.org/protocol/muc#user") value
    then set_muc_user p n p.muc_user
    else if bytes_eq (lit "http://jabber.org/protocol/muc") value
    then set_muc p n p.muc
    else some p

-- The body of the loop of `parse_presence_inner`.
unfoldable pub presence_node : IncomingPacket → Node → Outcome (Option IncomingPacket)
presence_node p n =
    if bytes_eq (lit "x") (slice p.mem n.node_name)
    then xmlfsm_skipto_attr (lit "xmlns") p.mem n.node.start
      >>= (λ found. ok (set_by_xmlns p n found.0))
    else ok (some p)

-- What follows, unless the function has returned FALSE.
abbrev pub if_some :
    (IncomingPacket → Outcome (Option IncomingPacket))
    → Option IncomingPacket
    → Outcome (Option IncomingPacket)
if_some k none = ok none
if_some k (some p) = k p

-- The loop of `parse_presence_inner` over the nodes of a span.
unfoldable pub presence_nodes : ℕ → Span → IncomingPacket → Outcome (Option IncomingPacket)
presence_nodes zero b p = fault out_of_fuel
presence_nodes (suc fuel) b p = do
  sibling ← xmlfsm_next_sibling p.mem b
  elim sibling [
    | none ↦ ok (some p)
    | some n ↦ presence_node p n >>= if_some (presence_nodes fuel n.buffer)
  ]

-- The nodes in what stands inside. They follow one another, so the size of the block bounds their
-- number; where nothing stands inside, no node is found.
unfoldable pub nodes_inside : IncomingPacket → Option Span → Outcome (Option IncomingPacket)
nodes_inside p none = ok (some p)
nodes_inside p (some b) = presence_nodes (length p.mem + 1) b p

-- `parse_presence_inner`
unfoldable pub parse_presence_inner : IncomingPacket → Outcome (Option IncomingPacket)
parse_presence_inner p = nodes_inside p p.inner

-- The type that a value names for a stanza, if it names one.
unfoldable pub type_by_value : ℕ → BufferPtr → Option ℕ
type_by_value name value =
    if bpt_eq (lit "error") value && not (bpt_null value)
    then some stanza_error
    else if name == stanza_message
    then (if bpt_eq (lit "chat") value
        then some stanza_message_chat
        else if bpt_eq (lit "groupchat") value
        then some stanza_message_groupchat
        else none)
    else if name == stanza_presence
    then (if bpt_null value
        then some 0
        else if bpt_eq (lit "unavailable") value
        then some stanza_presence_unavailable
        else none)
    else if name == stanza_iq
    then (if bpt_eq (lit "get") value
        then some stanza_iq_get
        else if bpt_eq (lit "set") value
        then some stanza_iq_set
        else if bpt_eq (lit "result") value
        then some stanza_iq_result
        else none)
    else none

-- `set_type` of an attribute, whose value is not null, and the assignment after it.
unfoldable pub set_type : IncomingPacket → XmlAttr → Option ℕ → Option IncomingPacket
set_type p attr none = none
set_type p attr (some type) = some (record p { type = type; type_attr = some attr })

unfoldable pub set_from : IncomingPacket → XmlAttr → Jid × Bool → Option IncomingPacket
set_from p attr (j, true) = some (record p { real_from = j; from_attr = some attr })
set_from p attr (j, false) = none

unfoldable pub set_to : IncomingPacket → XmlAttr → Jid × Bool → Option IncomingPacket
set_to p attr (j, true) = some (record p { proxy_to = j; to_attr = some attr })
set_to p attr (j, false) = none

-- The body of the loop over the attributes, for one that ends before the position.
unfoldable pub take_attr : IncomingPacket → XmlAttr → Option IncomingPacket
take_attr p attr =
    let name = slice p.mem attr.name in
    let value = slice p.mem attr.value in
    if bytes_eq (lit "from") name
    then set_from p attr (jid_struct (some value))
    else if bytes_eq (lit "to") name
    then set_to p attr (jid_struct (some value))
    else if bytes_eq (lit "type") name
    then set_type p attr (type_by_value p.name (some value))
    else if bytes_eq (lit "id") name
    then some (record p { id_attr = some attr })
    else some p

abbrev pub header_to : IncomingPacket → ℕ → ℕ → IncomingPacket
header_to p start stop = record p { header = some (record { start = start; stop = stop }) }

-- The checks behind the attributes; `none` is FALSE.
unfoldable pub is_routable : IncomingPacket → Bool
is_routable p =
    not (jid_empty p.real_from || jid_empty p.proxy_to)
    && (p.name == stanza_iq
        || (not (bpt_blank p.proxy_to.node)
            && not (
                p.name == stanza_message
                && (bpt_null p.proxy_to.resource && not (p.type == stanza_message_groupchat)))))

unfoldable pub check_inner : IncomingPacket → Outcome (Option IncomingPacket)
check_inner p =
    if is_routable p
    then (if p.name == stanza_presence then parse_presence_inner p else ok (some p))
    else ok none

-- The loop over the attributes from a position on, and what follows it. The header starts at
-- `start`; the stanza ends at `stop`, with the closing tag of a name of `size` bytes.
unfoldable pub take_attrs : ℕ → ℕ → ℕ → ℕ → IncomingPacket → ℕ → Outcome (Option IncomingPacket)
take_attrs zero start stop size p at = fault out_of_fuel
take_attrs (suc fuel) start stop size p at = do
  (state, q) ← xmlfsm_next_attr p.mem at
  elim state [
    | parse_success attr ↦ elim (take_attr (header_to p start q) attr) [
      | none ↦ ok none
      | some p' ↦ take_attrs fuel start stop size p' q
    ]
    | node_empty ↦ check_inner p
    | node_noattr ↦
        check_inner (record p { inner = some (record { start = q; stop = stop - size - 3 }) })
  ]

-- The name of a stanza.
unfoldable pub name_by_word : Bytes → Option ℕ
name_by_word word =
    if bytes_eq (lit "message") word
    then some stanza_message
    else if bytes_eq (lit "presence") word
    then some stanza_presence
    else if bytes_eq (lit "iq") word
    then some stanza_iq
    else none

-- The packet before the attributes are read: all else is zeroed.
abbrev pub named_packet : Bytes → ℕ → ℕ → IncomingPacket
named_packet mem name at = record {
  mem = mem;
  name = name;
  type = 0;
  real_from = jid_init;
  proxy_to = jid_init;
  header = some (record { start = at; stop = at });
  inner = none;
  from_attr = none;
  to_attr = none;
  id_attr = none;
  type_attr = none;
  muc = none;
  muc_user = none;
}

-- `packet_parse`: the packet, or `none` where it returns FALSE. Every attribute takes three bytes at
-- least, so the size of the block bounds their number.
unfoldable pub packet_parse : Bytes → Span → Outcome (Option IncomingPacket)
packet_parse mem b = do
  (word, at) ← xmlfsm_node_name mem b
  elim (name_by_word (slice mem word)) [
    | none ↦ ok none
    | some name ↦
        take_attrs (length mem + 1) at b.stop (word.stop - word.start) (named_packet mem name at) at
  ]
