-- ===== src/Builder/Stanza.antt =====
-- `builder_build` of builder.c: a packet is printed.
use mukite.Common.{
  ℕ, Bool, true, false, none, some, [], ◌++◌, Bytes, lit, ◌==◌, if◌then◌else◌, fault, null_pointer,
  wild_pointer,
}
use mukite.Buffer.{BufferPtr, contents}
use mukite.Jid.{Jid, jid_init, jid_empty, jid_str}
use mukite.RoomState.{Room}
use mukite.Packet.{
  BuilderPacket, SysData, IqType, MucItem, no_status, Uname, stanza_iq, stanza_message,
  stanza_presence, stanza_error, stanza_iq_get, stanza_iq_set, stanza_iq_result,
  stanza_message_chat, stanza_message_groupchat, stanza_presence_unavailable,
}
use mukite.Builder.{Push, push, push_if, ◌>>◌, skip, push_fmt, build_error, build_presence_mucadm}
use mukite.Builder.Times.{Clock, uptime, build_strftime, build_iq_time}
use mukite.Builder.RoomParts.{
  build_stats, build_room_items, build_room_info, build_room_affiliations,
}
use mukite.Builder.Form.{build_room_config}

-- The words that open and close a stanza. A name that is none of the three opens and closes nothing.
unfoldable pub stanza_word : ℕ → Bytes
stanza_word name =
    if name == stanza_message
    then lit "message"
    else if name == stanza_presence
    then lit "presence"
    else if name == stanza_iq
    then lit "iq"
    else []

unfoldable pub is_stanza : ℕ → Bool
is_stanza name =
    if name == stanza_message
    then true
    else if name == stanza_presence
    then true
    else name == stanza_iq

unfoldable pub push_open : ℕ → Push
push_open name = if is_stanza name then push (lit "<" ++ stanza_word name) else skip

unfoldable pub push_close : ℕ → Push
push_close name = if is_stanza name then push (lit "</" ++ (stanza_word name ++ lit ">")) else skip

-- `node@`, if there is a node.
unfoldable pub push_node : BufferPtr → Push
push_node none = skip
push_node (some node) = push node >> push (lit "@")

unfoldable pub push_from_nick : BufferPtr → Push
push_from_nick none = skip
push_from_nick (some nick) = push (lit "/") >> push nick

unfoldable pub push_to : Jid → Push
push_to to = if jid_empty to then skip else push (lit "' to='") >> push (jid_str to)

-- The word of a type; a type that the stanza does not have is printed as no word.
unfoldable pub type_word : ℕ → ℕ → Bytes
type_word name type =
    if type == stanza_error
    then lit "error"
    else if name == stanza_iq
    then (if type == stanza_iq_get
        then lit "get"
        else if type == stanza_iq_set
        then lit "set"
        else if type == stanza_iq_result
        then lit "result"
        else [])
    else if name == stanza_message
    then (if type == stanza_message_chat
        then lit "chat"
        else if type == stanza_message_groupchat
        then lit "groupchat"
        else [])
    else if name == stanza_presence
    then (if type == stanza_presence_unavailable then lit "unavailable" else [])
    else []

unfoldable pub push_type : ℕ → ℕ → Push
push_type name type =
    if type == 0 then skip else push (lit "' type='") >> push (type_word name type)

-- The members of the union that the code reads. A packet is zeroed before its fields are set, so
-- that a member that was never set is null or 0; another member that was set is misread.
unfoldable pub push_error : SysData → Push
push_error (SysData.error e) = build_error e
push_error SysData.nothing = skip
push_error _ = λ b. fault wild_pointer

abbrev pub no_item : MucItem
no_item = record { affiliation = 0; role = 0; jid = jid_init; nick = none; reason_node = none }

unfoldable pub push_presence : SysData → Push
push_presence (SysData.presence item codes resume) = build_presence_mucadm item codes resume
push_presence SysData.nothing = build_presence_mucadm no_item no_status none
push_presence _ = λ b. fault wild_pointer

unfoldable pub with_room : (Room → Push) → SysData → Push
with_room f (SysData.room room) = f room
with_room f SysData.nothing = λ b. fault null_pointer
with_room f _ = λ b. fault wild_pointer

unfoldable pub push_affiliations : SysData → Push
push_affiliations (SysData.affiliations affiliation items) =
    build_room_affiliations items affiliation
push_affiliations SysData.nothing = build_room_affiliations [] 0
push_affiliations _ = λ b. fault wild_pointer

unfoldable pub push_uname : Uname → Push
push_uname u =
    push (
      lit
        "<query xmlns='jabber:iq:version'><name>Mukite http://mukite.org/</name><version>git</version><os>")
    >> push u.sysname
    >> push (lit "/")
    >> push u.machine
    >> push (lit " ")
    >> push u.release
    >> push (lit "</os></query>")

unfoldable pub push_version : SysData → Push
push_version (SysData.uname u) = push_uname u
push_version SysData.nothing = push_uname (record { sysname = []; machine = []; release = [] })
push_version _ = λ b. fault wild_pointer

unfoldable pub push_stats : Clock → SysData → Push
push_stats c (SysData.stats ring queue) = build_stats c queue ring
push_stats c SysData.nothing = λ b. fault null_pointer
push_stats c _ = λ b. fault wild_pointer

-- The answer of a query; `build_component_items` pushes nothing.
unfoldable pub push_query : Clock → BufferPtr → IqType → SysData → Push
push_query c hostname IqType.no_iq d = skip
push_query c hostname IqType.iq_empty d = skip
push_query c hostname IqType.iq_version d = push_version d
push_query c hostname IqType.iq_last d =
    push (lit "<query xmlns='jabber:iq:last' seconds='") >> push_fmt (uptime c) >> push (lit "'/>")
push_query c hostname IqType.iq_time d =
    push (lit "<time xmlns='urn:xmpp:time'>") >> build_iq_time c >> push (lit "</time>")
push_query c hostname IqType.iq_stats d =
    push (lit "<query xmlns='http://jabber.org/protocol/stats'>")
    >> push_stats c d
    >> push (lit "</query>")
push_query c hostname IqType.iq_disco_info d =
    push (lit "<query xmlns='http://jabber.org/protocol/disco#info'>")
    >> push (
        lit
          "<identity category='conference' type='text' name='Chatrooms'/><feature var='http://jabber.org/protocol/disco#info'/><feature var='http://jabber.org/protocol/disco#items'/><feature var='http://jabber.org/protocol/muc'/><feature var='jabber:iq:last'/><feature var='jabber:iq:version'/><feature var='urn:xmpp:time'/>")
    >> push (lit "</query>")
push_query c hostname IqType.room_disco_info d =
    push (lit "<query xmlns='http://jabber.org/protocol/disco#info'>")
    >> with_room build_room_info d
    >> push (lit "</query>")
push_query c hostname IqType.iq_disco_items d =
    push (lit "<query xmlns='http://jabber.org/protocol/disco#items'>") >> push (lit "</query>")
push_query c hostname IqType.room_disco_items d =
    push (lit "<query xmlns='http://jabber.org/protocol/disco#items'>")
    >> with_room (λ room. build_room_items room hostname) d
    >> push (lit "</query>")
push_query c hostname IqType.room_affiliations d =
    push (lit "<query xmlns='http://jabber.org/protocol/muc#admin'>")
    >> push_affiliations d
    >> push (lit "</query>")
push_query c hostname IqType.room_config d =
    push (lit "<query xmlns='http://jabber.org/protocol/muc#owner'>")
    >> with_room build_room_config d
    >> push (lit "</query>")
push_query c hostname IqType.iq_vcard d = push (
    lit
      "<vCard xmlns='vcard-temp'><FN>Mukite XMPP Component</FN><URL>http://mukite.org/</URL></vCard>")

unfoldable pub push_content : Clock → BuilderPacket → Push
push_content c p =
    if p.type == stanza_error
    then push_error p.sys_data
    else if p.name == stanza_presence
    then push_presence p.sys_data
    else if p.name == stanza_iq
    then push_query c p.from_host p.iq_type p.sys_data
    else skip

unfoldable pub push_delay : BuilderPacket → Push
push_delay p =
    if p.delay == 0
    then skip
    else push (lit "<delay xmlns='urn:xmpp:delay' from='")
      >> push_node p.from_node
      >> push (contents p.from_host)
      >> push (lit "' stamp='")
      >> build_strftime p.delay true
      >> push (lit "'/><x xmlns='jabber:x:delay' stamp='")
      >> build_strftime p.delay false
      >> push (lit "'/>")

-- `builder_build`
unfoldable pub builder_build : Clock → BuilderPacket → Push
builder_build c p =
    push_open p.name
    >> push_if p.header
    >> push (lit " from='")
    >> push_node p.from_node
    >> push (contents p.from_host)
    >> push_from_nick p.from_nick
    >> push_to p.to
    >> push_type p.name p.type
    >> push (lit "'>")
    >> push_if p.user_data
    >> push_content c p
    >> push_delay p
    >> push_close p.name
