-- ===== src/Builder/ContentText.antt =====
-- What the contents of a stanza, `builder_build` of builder.c, write.
use mukite.Common.{
  ℕ, ◌≡◌, refl, true, none, List, [], ◌++◌, Bytes, lit, Outcome, ok, fault, ◌>>=◌, append_assoc,
  Ensures, bind-Ensures_by,
}
use mukite.Buffer.{BufferPtr}
use mukite.Affiliation.{Affiliation}
use mukite.RoomState.{Room}
use mukite.Packet.{SysData, IqType, MucItem, StatusCodes, Uname, no_status}
use mukite.Builder.{
  Push, push, ◌>>◌, decimal, push_fmt, affiliation_name, role_name, build_presence_mucadm,
}
use mukite.Builder.Times.{
  Clock, uptime, timer_time, stamp, gmtime, tzo, push_time, build_strftime, build_iq_time,
}
use mukite.Builder.RoomParts.{build_room_info, build_room_items, build_room_affiliations}
use mukite.Builder.Form.{build_room_config}
use mukite.Builder.Stanza.{
  push_error, no_item, push_presence, with_room, push_affiliations, push_uname, push_version,
  push_stats, push_query,
}
use mukite.Builder.Tree.{Tree, nil, print}
use mukite.Builder.Reference.{room_info, room_items, affiliation_items, stats_tree}
use mukite.Builder.FormTree.{form_tree}
use mukite.Builder.StanzaTree.{
  query, version_tree, iso_time, time_tree, error_content, item_content, presence_content, room_of,
  affiliations_content, version_content, stats_content, query_content,
}
use mukite.Builder.Writes.{Writes, skip-Writes, push-Writes, push-Refuses, ◌▷◌, as_text}
use mukite.Builder.Early.{early_then, fmt-Early, time-Early}
use mukite.Builder.Parts.{build_error-Writes, build_presence_mucadm-Writes}
use mukite.Builder.RoomText.{
  build_stats-Writes, build_room_items-Writes, build_room_info-Writes,
  build_room_affiliations-Writes,
}
use mukite.Builder.FormText.{build_room_config-Writes}

-- The outcome is a fault, or a tree that the code writes.
abbrev pub Described : Push → Outcome Tree → Type 0
Described m = Ensures (λ t. Writes m (print t))

pub push_error-Described : (d : SysData) → Described (push_error d) (error_content d)
unfolding push_error
push_error-Described (SysData.error e) = build_error-Writes e
push_error-Described SysData.nothing = skip-Writes
push_error-Described _ = tt

item-Described :
    (item : MucItem) (codes : StatusCodes) (resume : BufferPtr)
    → Described (build_presence_mucadm item codes resume) (item_content item codes resume)
item-Described item codes resume = bind-Ensures_by _ (affiliation_name item.affiliation) _ (λ a e.
    bind-Ensures_by _ (role_name item.role) _
      (λ b h. build_presence_mucadm-Writes item codes resume a b e h))

pub push_presence-Described : (d : SysData) → Described (push_presence d) (presence_content d)
unfolding push_presence
push_presence-Described (SysData.presence item codes resume) = item-Described item codes resume
push_presence-Described SysData.nothing = item-Described no_item no_status none
push_presence-Described _ = tt

query-Writes :
    (xmlns : Bytes) {m : Push} (t : Tree)
    → Writes m (print t)
    → Writes
        (push (lit "<query xmlns='" ++ (xmlns ++ lit "'>")) >> m >> push (lit "</query>"))
        (print (query xmlns t))
query-Writes xmlns t w = as_text (push-Writes _ ▷ w ▷ push-Writes _) (λ r. simp (append_assoc))

room_query-Described :
    (xmlns : Bytes) (f : Room → Push) (tree : Room → Tree)
    → ((room : Room) → Writes (f room) (print (tree room)))
    → (d : SysData)
    → Described
        (push (lit "<query xmlns='" ++ (xmlns ++ lit "'>"))
          >> with_room f d
          >> push (lit "</query>"))
        (room_of d >>= λ room. ok (query xmlns (tree room)))
unfolding with_room
room_query-Described xmlns f tree w (SysData.room room) = query-Writes xmlns (tree room) (w room)
room_query-Described xmlns f tree w SysData.nothing = tt
room_query-Described xmlns f tree w _ = tt

name-Described :
    (items : List Affiliation) (a : ℕ) (name : Outcome Bytes)
    → affiliation_name a ≡ name
    → Described
        (push (lit "<query xmlns='http://jabber.org/protocol/muc#admin'>")
          >> build_room_affiliations items a
          >> push (lit "</query>"))
        ((name >>= λ n. ok (affiliation_items n items)) >>= λ t.
          ok (query (lit "http://jabber.org/protocol/muc#admin") t))
name-Described items a (ok n) e =
    query-Writes (lit "http://jabber.org/protocol/muc#admin") (affiliation_items n items)
      (build_room_affiliations-Writes items a n e)
name-Described items a (fault f) e = tt

affiliations-Described :
    (d : SysData)
    → Described
        (push (lit "<query xmlns='http://jabber.org/protocol/muc#admin'>")
          >> push_affiliations d
          >> push (lit "</query>"))
        (affiliations_content d >>= λ t. ok (query (lit "http://jabber.org/protocol/muc#admin") t))
unfolding push_affiliations affiliation_name
affiliations-Described (SysData.affiliations a items) =
    name-Described items a (affiliation_name a) refl
affiliations-Described SysData.nothing =
    query-Writes (lit "http://jabber.org/protocol/muc#admin") nil
      (build_room_affiliations-Writes [] 0 (lit "outcast") refl)
affiliations-Described _ = tt

uname-Writes : (u : Uname) → Writes (push_uname u) (print (version_tree u))
unfolding push_uname
uname-Writes u =
    as_text
      (push-Writes _
        ▷ push-Writes u.sysname
        ▷ push-Writes _
        ▷ push-Writes u.machine
        ▷ push-Writes _
        ▷ push-Writes u.release
        ▷ push-Writes _)
      (λ r. simp (append_assoc))

version-Described : (d : SysData) → Described (push_version d) (version_content d)
unfolding push_version
version-Described (SysData.uname u) = uname-Writes u
version-Described SysData.nothing = uname-Writes _
version-Described _ = tt

stats-Described :
    (c : Clock) (d : SysData)
    → Described
        (push (lit "<query xmlns='http://jabber.org/protocol/stats'>")
          >> push_stats c d
          >> push (lit "</query>"))
        (stats_content c d >>= λ t. ok (query (lit "http://jabber.org/protocol/stats") t))
unfolding push_stats
stats-Described c (SysData.stats ring queue) =
    query-Writes (lit "http://jabber.org/protocol/stats") (stats_tree c queue ring)
      (build_stats-Writes c queue ring)
stats-Described c SysData.nothing = tt
stats-Described c _ = tt

pub iso_time-Writes : (t : ℕ) → Writes (build_strftime t true) (λ r. iso_time t ++ r)
unfolding build_strftime
iso_time-Writes t =
    as_text
      (early_then (push_time (stamp true (gmtime t))) (push (lit "Z")) (stamp true (gmtime t))
        (time-Early (stamp true (gmtime t))) (push-Writes (lit "Z")) (push-Refuses b'Z' []))
      (λ r. append_assoc (stamp true (gmtime t)) (lit "Z") r)

iq_time-Writes :
    (c : Clock)
    → Writes
        (push (lit "<time xmlns='urn:xmpp:time'>") >> build_iq_time c >> push (lit "</time>"))
        (print (time_tree c))
unfolding build_iq_time
iq_time-Writes c =
    as_text
      (push-Writes _
        ▷ (push-Writes _
            ▷ push-Writes (tzo c.zone)
            ▷ push-Writes _
            ▷ iso_time-Writes (timer_time c)
            ▷ push-Writes _)
        ▷ push-Writes _)
      (λ r. refl)

pub push_query-Described :
    (c : Clock) (hostname : BufferPtr) (q : IqType) (d : SysData)
    → Described (push_query c hostname q d) (query_content c hostname q d)
unfolding push_query
push_query-Described c hostname IqType.no_iq d = skip-Writes
push_query-Described c hostname IqType.iq_empty d = skip-Writes
push_query-Described c hostname IqType.iq_version d = version-Described d
push_query-Described c hostname IqType.iq_last d =
    as_text
      (push-Writes _
        ▷ early_then (push_fmt (uptime c)) (push _) (decimal (uptime c)) (fmt-Early (uptime c))
            (push-Writes _) (push-Refuses 39 _))
      (λ r. refl)
push_query-Described c hostname IqType.iq_time d = iq_time-Writes c
push_query-Described c hostname IqType.iq_stats d = stats-Described c d
push_query-Described c hostname IqType.iq_disco_info d =
    as_text (push-Writes _ ▷ push-Writes _ ▷ push-Writes _) (λ r. refl)
push_query-Described c hostname IqType.room_disco_info d =
    room_query-Described (lit "http://jabber.org/protocol/disco#info") build_room_info room_info
      build_room_info-Writes d
push_query-Described c hostname IqType.iq_disco_items d =
    as_text (push-Writes _ ▷ push-Writes _) (λ r. refl)
push_query-Described c hostname IqType.room_disco_items d =
    room_query-Described (lit "http://jabber.org/protocol/disco#items")
      (λ room. build_room_items room hostname)
      (λ room. room_items room hostname room.participants.entries)
      (λ room. build_room_items-Writes room hostname) d
push_query-Described c hostname IqType.room_affiliations d = affiliations-Described d
push_query-Described c hostname IqType.room_config d =
    room_query-Described (lit "http://jabber.org/protocol/muc#owner") build_room_config form_tree
      build_room_config-Writes d
push_query-Described c hostname IqType.iq_vcard d = as_text (push-Writes _) (λ r. refl)
