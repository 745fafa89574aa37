-- ===== src/Builder/RoomParts.antt =====
-- The parts of builder.c that print a room, its lists and its form, and the counters.
use mukite.Common.{ℕ, Bool, none, some, List, [], ◌∷◌, ◌++◌, Bytes, lit, if◌then◌else◌}
use mukite.Buffer.{BufferPtr, contents, bpt_blank}
use mukite.Jid.{jid_str}
use mukite.Participant.{Participant}
use mukite.Affiliation.{Affiliation}
use mukite.RoomState.{Room}
use mukite.Packet.{StanzaQueueStats, RingBufferStats}
use mukite.Builder.{Push, push, ◌>>◌, skip, push_fmt, push_name, affiliation_name}
use mukite.Builder.Times.{Clock, uptime}

-- BUF_PUSH_STAT
unfoldable pub push_stat : Bytes → Bytes → ℕ → Push
push_stat name units value =
    push (lit "<stat name='" ++ (name ++ (lit "' units='" ++ (units ++ lit "' value='"))))
    >> push_fmt value
    >> push (lit "'/>")

-- `build_stats`
unfoldable pub build_stats : Clock → StanzaQueueStats → RingBufferStats → Push
build_stats c queue ring =
    push_stat (lit "queue/overflows") (lit "times") queue.overflows
    >> push_stat (lit "queue/underflows") (lit "times") queue.underflows
    >> push_stat (lit "queue/realloc_enlarges") (lit "times") queue.realloc_enlarges
    >> push_stat (lit "queue/realloc_shortens") (lit "times") queue.realloc_shortens
    >> push_stat (lit "queue/mallocs") (lit "times") queue.mallocs
    >> push_stat (lit "queue/data_pushes") (lit "times") queue.data_pushes
    >> push_stat (lit "queue/data_pops") (lit "times") queue.data_pops
    >> push_stat (lit "queue/free_pushes") (lit "times") queue.free_pushes
    >> push_stat (lit "queue/free_pops") (lit "times") queue.free_pops
    >> push_stat (lit "ringbuffer/underflows") (lit "times") ring.underflows
    >> push_stat (lit "ringbuffer/overflows") (lit "times") ring.overflows
    >> push_stat (lit "ringbuffer/reads") (lit "times") ring.reads
    >> push_stat (lit "ringbuffer/writes") (lit "times") ring.writes
    >> push_stat (lit "time/uptime") (lit "seconds") (uptime c)

-- One round of the loop of `build_room_items`.
unfoldable pub push_item : Room → BufferPtr → Participant → Push
push_item room hostname p =
    push (lit "<item name='")
    >> push (contents p.nick)
    >> push (lit "' jid='")
    >> push (contents room.node)
    >> push (lit "@")
    >> push (contents hostname)
    >> push (lit "/")
    >> push (contents p.nick)
    >> push (lit "'/>")

unfoldable pub push_items : Room → BufferPtr → List Participant → Push
push_items room hostname [] = skip
push_items room hostname (p ∷ ps) = push_item room hostname p >> push_items room hostname ps

-- `build_room_items`
unfoldable pub build_room_items : Room → BufferPtr → Push
build_room_items room hostname = push_items room hostname room.participants.entries

-- BUF_PUSH_FEATURE
unfoldable pub push_feature : Bool → Bytes → Bytes → Push
push_feature test if_true if_false =
    if test
    then push (lit "<feature var='" ++ (if_true ++ lit "'/>"))
    else push (lit "<feature var='" ++ (if_false ++ lit "'/>"))

unfoldable pub push_items_feature : Bool → Push
push_items_feature public =
    if public then push (lit "<feature var='http://jabber.org/protocol/disco#items'/>") else skip

-- `build_room_info`
unfoldable pub build_room_info : Room → Push
build_room_info room =
    push (lit "<identity category='conference' type='text' name='")
    >> push (contents (if bpt_blank room.title then room.node else room.title))
    >> push (
        lit
          "'/><feature var='http://jabber.org/protocol/muc'/><feature var='http://jabber.org/protocol/disco#info'/>")
    >> push_items_feature room.flags.public_participants
    >> push_feature room.flags.public_room (lit "muc_public") (lit "muc_hidden")
    >> push_feature room.flags.persistent_room (lit "muc_persistent") (lit "muc_temporary")
    >> push_feature room.flags.members_only (lit "muc_membersonly") (lit "muc_open")
    >> push_feature room.flags.semi_anonymous (lit "muc_semianonymous") (lit "muc_nonanonymous")
    >> push_feature room.flags.moderated_room (lit "muc_moderated") (lit "muc_unmoderated")
    >> push_feature room.flags.password_protected_room (lit "muc_passwordprotected")
        (lit "muc_unsecured")

unfoldable pub push_affiliation_reason : BufferPtr → Push
push_affiliation_reason none = push (lit "'><reason/></item>")
push_affiliation_reason (some reason) = push (lit "'>") >> push reason >> push (lit "</item>")

-- `build_room_affiliations`: the loop from an entry on.
unfoldable pub build_room_affiliations : List Affiliation → ℕ → Push
build_room_affiliations [] affiliation = skip
build_room_affiliations (a ∷ rest) affiliation =
    push (lit "<item affiliation='")
    >> push_name (affiliation_name affiliation)
    >> push (lit "' jid='")
    >> push (jid_str a.jid)
    >> push_affiliation_reason a.reason_node
    >> build_room_affiliations rest affiliation
