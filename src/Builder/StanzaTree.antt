-- ===== src/Builder/StanzaTree.antt =====
-- A stanza as a tree of XML.
use mukite.Common.{
  ℕ, true, false, none, some, [], ◌∷◌, ◌++◌, Bytes, lit, ◌==◌, if◌then◌else◌, Outcome, ok, fault,
  null_pointer, wild_pointer, ◌>>=◌,
}
use mukite.Buffer.{BufferPtr, contents}
use mukite.RoomState.{Room}
use mukite.Packet.{
  BuilderPacket, SysData, IqType, MucItem, StatusCodes, no_status, Uname, stanza_iq,
  stanza_presence, stanza_error,
}
use mukite.Builder.{decimal, affiliation_name, role_name}
use mukite.Builder.Times.{Clock, uptime, timer_time, stamp, gmtime, tzo}
use mukite.Builder.Stanza.{stanza_word, type_word, no_item}
use mukite.Builder.Tree.{named, optional, given, Tree, nil, text, leaf, element, both}
use mukite.Builder.Reference.{
  jid_value, error_tree, muc_user_tree, stats_tree, room_items, identity, feature, room_info,
  affiliation_items,
}
use mukite.Builder.FormTree.{form_tree}

-- The sender: node@host/nick, each with its separator if it is there.
abbrev pub node_part : BufferPtr → Bytes
node_part none = []
node_part (some node) = node ++ (b'@' ∷ [])

abbrev pub nick_part : BufferPtr → Bytes
nick_part none = []
nick_part (some nick) = b'/' ∷ nick

abbrev pub sender : BuilderPacket → Bytes
sender p = node_part p.from_node ++ (contents p.from_host ++ nick_part p.from_nick)

abbrev pub simple : Bytes → Bytes → Tree
simple name t = element name [] (text t)

-- `<query xmlns='…'>`
abbrev pub query : Bytes → Tree → Tree
query xmlns inner = element (lit "query") (named (lit "xmlns") xmlns ∷ []) inner

abbrev pub version_tree : Uname → Tree
version_tree u = query (lit "jabber:iq:version") (
    both (simple (lit "name") (lit "Mukite http://mukite.org/")) (
      both (simple (lit "version") (lit "git"))
        (simple (lit "os") (u.sysname ++ (b'/' ∷ (u.machine ++ (b' ' ∷ u.release)))))))

abbrev pub iso_time : ℕ → Bytes
iso_time t = stamp true (gmtime t) ++ lit "Z"

abbrev pub time_tree : Clock → Tree
time_tree c =
    element (lit "time") (named (lit "xmlns") (lit "urn:xmpp:time") ∷ [])
      (both (simple (lit "tzo") (tzo c.zone)) (simple (lit "utc") (iso_time (timer_time c))))

abbrev pub component_info : Tree
component_info = both (identity (lit "Chatrooms")) (
    both (feature (lit "http://jabber.org/protocol/disco#info")) (
      both (feature (lit "http://jabber.org/protocol/disco#items")) (
        both (feature (lit "http://jabber.org/protocol/muc")) (
          both (feature (lit "jabber:iq:last"))
            (both (feature (lit "jabber:iq:version")) (feature (lit "urn:xmpp:time")))))))

abbrev pub vcard_tree : Tree
vcard_tree = element (lit "vCard") (named (lit "xmlns") (lit "vcard-temp") ∷ []) (
    both (simple (lit "FN") (lit "Mukite XMPP Component"))
      (simple (lit "URL") (lit "http://mukite.org/")))

-- What an error says; nothing, if none was given.
abbrev pub error_content : SysData → Outcome Tree
error_content (SysData.error e) = ok (error_tree e)
error_content SysData.nothing = ok nil
error_content _ = fault wild_pointer

abbrev pub item_content : MucItem → StatusCodes → BufferPtr → Outcome Tree
item_content item codes resume = do
  affiliation ← affiliation_name item.affiliation
  role ← role_name item.role
  ok (muc_user_tree affiliation role item codes resume)

abbrev pub presence_content : SysData → Outcome Tree
presence_content (SysData.presence item codes resume) = item_content item codes resume
presence_content SysData.nothing = item_content no_item no_status none
presence_content _ = fault wild_pointer

abbrev pub room_of : SysData → Outcome Room
room_of (SysData.room room) = ok room
room_of SysData.nothing = fault null_pointer
room_of _ = fault wild_pointer

abbrev pub affiliations_content : SysData → Outcome Tree
affiliations_content (SysData.affiliations a items) = do
  name ← affiliation_name a
  ok (affiliation_items name items)
affiliations_content SysData.nothing = ok nil
affiliations_content _ = fault wild_pointer

abbrev pub version_content : SysData → Outcome Tree
version_content (SysData.uname u) = ok (version_tree u)
version_content SysData.nothing =
    ok (version_tree (record { sysname = []; machine = []; release = [] }))
version_content _ = fault wild_pointer

abbrev pub stats_content : Clock → SysData → Outcome Tree
stats_content c (SysData.stats ring queue) = ok (stats_tree c queue ring)
stats_content c SysData.nothing = fault null_pointer
stats_content c _ = fault wild_pointer

-- The answer to a query.
abbrev pub query_content : Clock → BufferPtr → IqType → SysData → Outcome Tree
query_content c hostname IqType.no_iq d = ok nil
query_content c hostname IqType.iq_empty d = ok nil
query_content c hostname IqType.iq_version d = version_content d
query_content c hostname IqType.iq_last d = ok (
    leaf (lit "query") (
      named (lit "xmlns") (lit "jabber:iq:last") ∷ named (lit "seconds") (decimal (uptime c)) ∷ []))
query_content c hostname IqType.iq_time d = ok (time_tree c)
query_content c hostname IqType.iq_stats d =
    stats_content c d >>= λ t. ok (query (lit "http://jabber.org/protocol/stats") t)
query_content c hostname IqType.iq_disco_info d =
    ok (query (lit "http://jabber.org/protocol/disco#info") component_info)
query_content c hostname IqType.room_disco_info d =
    room_of d >>= λ room. ok (query (lit "http://jabber.org/protocol/disco#info") (room_info room))
query_content c hostname IqType.iq_disco_items d =
    ok (query (lit "http://jabber.org/protocol/disco#items") nil)
query_content c hostname IqType.room_disco_items d = room_of d >>= λ room. ok (
    query (lit "http://jabber.org/protocol/disco#items")
      (room_items room hostname room.participants.entries))
query_content c hostname IqType.room_affiliations d =
    affiliations_content d >>= λ t. ok (query (lit "http://jabber.org/protocol/muc#admin") t)
query_content c hostname IqType.room_config d =
    room_of d >>= λ room. ok (query (lit "http://jabber.org/protocol/muc#owner") (form_tree room))
query_content c hostname IqType.iq_vcard d = ok vcard_tree

abbrev pub content : Clock → BuilderPacket → Outcome Tree
content c p =
    if p.type == stanza_error
    then error_content p.sys_data
    else if p.name == stanza_presence
    then presence_content p.sys_data
    else if p.name == stanza_iq
    then query_content c p.from_host p.iq_type p.sys_data
    else ok nil

abbrev pub delay_tree : BuilderPacket → Tree
delay_tree p =
    if p.delay == 0
    then nil
    else both
        (leaf (lit "delay") (
          named (lit "xmlns") (lit "urn:xmpp:delay")
          ∷ named (lit "from") (node_part p.from_node ++ contents p.from_host)
          ∷ named (lit "stamp") (iso_time p.delay)
          ∷ []))
        (leaf (lit "x") (
          named (lit "xmlns") (lit "jabber:x:delay")
          ∷ named (lit "stamp") (stamp false (gmtime p.delay))
          ∷ []))

abbrev pub type_value : BuilderPacket → BufferPtr
type_value p = if p.type == 0 then none else some (type_word p.name p.type)

abbrev pub stanza_tree : BuilderPacket → Tree → Tree
stanza_tree p inner =
    element (stanza_word p.name)
      (given p.header
        ∷ named (lit "from") (sender p)
        ∷ optional (lit "to") (jid_value p.to)
        ∷ optional (lit "type") (type_value p)
        ∷ [])
      (both (text (contents p.user_data)) (both inner (delay_tree p)))
