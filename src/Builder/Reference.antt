-- ===== src/Builder/Reference.antt =====
-- What each packet says, as a tree of XML.
use mukite.Common.{ℕ, Bool, none, some, List, [], ◌∷◌, ◌++◌, Bytes, lit, if◌then◌else◌}
use mukite.Buffer.{BufferPtr, contents, bpt_blank}
use mukite.Jid.{Jid, jid_empty, jid_str}
use mukite.Participant.{Participant}
use mukite.Affiliation.{Affiliation}
use mukite.RoomState.{Room}
use mukite.Packet.{MucItem, StatusCodes, XmppError, StanzaQueueStats, RingBufferStats}
use mukite.Builder.{decimal}
use mukite.Builder.Times.{Clock, uptime}
use mukite.Builder.Tree.{Attr, named, optional, Tree, nil, text, leaf, element, both}

-- An identifier, unless it has no host.
abbrev pub jid_value : Jid → BufferPtr
jid_value j = if jid_empty j then none else some (jid_str j)

abbrev pub error_tree : XmppError → Tree
error_tree e = element (lit "error") (named (lit "code") e.code ∷ named (lit "type") e.type ∷ []) (
    both (leaf e.name (named (lit "xmlns") (lit "urn:ietf:params:xml:ns:xmpp-stanzas") ∷ [])) (
      element (lit "text") (named (lit "xmlns") (lit "urn:ietf:params:xml:ns:xmpp-stanzas") ∷ [])
        (text e.text)))

-- An item, with the reason in it, if there is one.
abbrev pub item_tree : List Attr → BufferPtr → Tree
item_tree a none = leaf (lit "item") a
item_tree a (some reason) = element (lit "item") a (text reason)

abbrev pub status : Bool → Bytes → Tree → Tree
status value code otherwise =
    if value then leaf (lit "status") (named (lit "code") code ∷ []) else otherwise

-- The first of the codes that are set.
abbrev pub status_tree : StatusCodes → Tree
status_tree s = status s.non_anonymous (lit "100") (
    status s.self_presence (lit "110") (
      status s.logging_enabled (lit "170") (
        status s.room_created (lit "201") (
          status s.nickname_enforced (lit "210") (
            status s.banned (lit "301") (
              status s.nickname_changed (lit "303")
                (status s.kicked (lit "307") (status s.nonmember_removed (lit "321") nil))))))))

abbrev pub item_attrs : Bytes → Bytes → BufferPtr → BufferPtr → List Attr
item_attrs affiliation role j nick =
    named (lit "affiliation") affiliation
    ∷ named (lit "role") role
    ∷ optional (lit "jid") j
    ∷ optional (lit "nick") nick
    ∷ []

-- The child of a presence, with the words for the affiliation and the role.
abbrev pub muc_user_tree : Bytes → Bytes → MucItem → StatusCodes → BufferPtr → Tree
muc_user_tree affiliation role item codes resume =
    element (lit "x") (named (lit "xmlns") (lit "http://jabber.org/protocol/muc#user") ∷ []) (
      both (item_tree (item_attrs affiliation role (jid_value item.jid) item.nick) item.reason_node)
        (both (status_tree codes) (text (contents resume))))

abbrev pub stat_tree : Bytes → Bytes → ℕ → Tree
stat_tree name units value =
    leaf (lit "stat") (
      named (lit "name") name
      ∷ named (lit "units") units
      ∷ named (lit "value") (decimal value)
      ∷ [])

abbrev pub times_tree : Bytes → ℕ → Tree
times_tree name value = stat_tree name (lit "times") value

abbrev pub stats_tree : Clock → StanzaQueueStats → RingBufferStats → Tree
stats_tree c queue ring = both (times_tree (lit "queue/overflows") queue.overflows) (
    both (times_tree (lit "queue/underflows") queue.underflows) (
      both (times_tree (lit "queue/realloc_enlarges") queue.realloc_enlarges) (
        both (times_tree (lit "queue/realloc_shortens") queue.realloc_shortens) (
          both (times_tree (lit "queue/mallocs") queue.mallocs) (
            both (times_tree (lit "queue/data_pushes") queue.data_pushes) (
              both (times_tree (lit "queue/data_pops") queue.data_pops) (
                both (times_tree (lit "queue/free_pushes") queue.free_pushes) (
                  both (times_tree (lit "queue/free_pops") queue.free_pops) (
                    both (times_tree (lit "ringbuffer/underflows") ring.underflows) (
                      both (times_tree (lit "ringbuffer/overflows") ring.overflows) (
                        both (times_tree (lit "ringbuffer/reads") ring.reads) (
                          both (times_tree (lit "ringbuffer/writes") ring.writes)
                            (stat_tree (lit "time/uptime") (lit "seconds") (uptime c))))))))))))))

abbrev pub room_item : Room → BufferPtr → Participant → Tree
room_item room hostname p = leaf (lit "item") (
    named (lit "name") (contents p.nick)
    ∷ named (lit "jid")
        (contents room.node ++ (b'@' ∷ (contents hostname ++ (b'/' ∷ contents p.nick))))
    ∷ [])

abbrev pub room_items : Room → BufferPtr → List Participant → Tree
room_items room hostname [] = nil
room_items room hostname (p ∷ ps) = both (room_item room hostname p) (room_items room hostname ps)

abbrev pub feature : Bytes → Tree
feature var = leaf (lit "feature") (named (lit "var") var ∷ [])

abbrev pub identity : Bytes → Tree
identity name = leaf (lit "identity") (
    named (lit "category") (lit "conference")
    ∷ named (lit "type") (lit "text")
    ∷ named (lit "name") name
    ∷ [])

abbrev pub room_info : Room → Tree
room_info room =
    both (identity (contents (if bpt_blank room.title then room.node else room.title))) (
      both (feature (lit "http://jabber.org/protocol/muc")) (
        both (feature (lit "http://jabber.org/protocol/disco#info")) (
          both
            (if room.flags.public_participants
              then feature (lit "http://jabber.org/protocol/disco#items")
              else nil)
            (both
              (if room.flags.public_room
                then feature (lit "muc_public")
                else feature (lit "muc_hidden"))
              (both
                (if room.flags.persistent_room
                  then feature (lit "muc_persistent")
                  else feature (lit "muc_temporary"))
                (both
                  (if room.flags.members_only
                    then feature (lit "muc_membersonly")
                    else feature (lit "muc_open"))
                  (both
                    (if room.flags.semi_anonymous
                      then feature (lit "muc_semianonymous")
                      else feature (lit "muc_nonanonymous"))
                    (both
                      (if room.flags.moderated_room
                        then feature (lit "muc_moderated")
                        else feature (lit "muc_unmoderated"))
                      (if room.flags.password_protected_room
                        then feature (lit "muc_passwordprotected")
                        else feature (lit "muc_unsecured"))))))))))

-- The reason of an affiliation; an empty one is sent, if there is none.
abbrev pub reason_tree : BufferPtr → Tree
reason_tree none = leaf (lit "reason") []
reason_tree (some reason) = text reason

abbrev pub affiliation_items : Bytes → List Affiliation → Tree
affiliation_items name [] = nil
affiliation_items name (a ∷ rest) =
    both
      (element (lit "item")
        (named (lit "affiliation") name ∷ named (lit "jid") (jid_str a.jid) ∷ [])
        (reason_tree a.reason_node))
      (affiliation_items name rest)
