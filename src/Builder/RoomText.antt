-- ===== src/Builder/RoomText.antt =====
-- What the parts of builder.c that print a room's lists, and the counters, write.
use mukite.Common.{
  ℕ, ◌≡◌, refl, sym, ap, Bool, none, some, List, [], ◌∷◌, ◌++◌, Bytes, lit, if◌then◌else◌, ok,
  append_assoc,
}
use mukite.Buffer.{BufferPtr, contents, bpt_blank}
use mukite.Jid.{jid_str}
use mukite.Participant.{Participant}
use mukite.Affiliation.{Affiliation}
use mukite.RoomState.{Room}
use mukite.Packet.{StanzaQueueStats, RingBufferStats}
use mukite.Builder.{push, decimal, push_fmt, affiliation_name}
use mukite.Builder.Times.{Clock, uptime}
use mukite.Builder.RoomParts.{
  push_stat, build_stats, push_item, push_items, build_room_items, push_feature, push_items_feature,
  build_room_info, push_affiliation_reason, build_room_affiliations,
}
use mukite.Builder.Tree.{nil, print}
use mukite.Builder.Reference.{
  stat_tree, stats_tree, room_item, room_items, feature, room_info, reason_tree, affiliation_items,
}
use mukite.Builder.Writes.{Writes, skip-Writes, push-Writes, push-Refuses, ◌▷◌, as_text}
use mukite.Builder.Early.{early_then, fmt-Early}
use mukite.Builder.Parts.{if-Writes, push_name-Writes}

push_stat-Writes :
    (name units : Bytes) (value : ℕ)
    → Writes (push_stat name units value) (print (stat_tree name units value))
unfolding push_stat
push_stat-Writes name units value =
    as_text
      (push-Writes _
        ▷ early_then (push_fmt value) (push _) (decimal value) (fmt-Early value) (push-Writes _)
            (push-Refuses 39 _))
      (λ r. simp (append_assoc))

pub build_stats-Writes :
    (c : Clock) (queue : StanzaQueueStats) (ring : RingBufferStats)
    → Writes (build_stats c queue ring) (print (stats_tree c queue ring))
unfolding build_stats
build_stats-Writes c queue ring =
    as_text
      (push_stat-Writes _ _ queue.overflows
        ▷ push_stat-Writes _ _ queue.underflows
        ▷ push_stat-Writes _ _ queue.realloc_enlarges
        ▷ push_stat-Writes _ _ queue.realloc_shortens
        ▷ push_stat-Writes _ _ queue.mallocs
        ▷ push_stat-Writes _ _ queue.data_pushes
        ▷ push_stat-Writes _ _ queue.data_pops
        ▷ push_stat-Writes _ _ queue.free_pushes
        ▷ push_stat-Writes _ _ queue.free_pops
        ▷ push_stat-Writes _ _ ring.underflows
        ▷ push_stat-Writes _ _ ring.overflows
        ▷ push_stat-Writes _ _ ring.reads
        ▷ push_stat-Writes _ _ ring.writes
        ▷ push_stat-Writes _ _ (uptime c))
      (λ r. refl)

push_item-Writes :
    (room : Room) (hostname : BufferPtr) (p : Participant)
    → Writes (push_item room hostname p) (print (room_item room hostname p))
unfolding push_item
push_item-Writes room hostname p =
    as_text
      (push-Writes _
        ▷ push-Writes (contents p.nick)
        ▷ push-Writes _
        ▷ push-Writes (contents room.node)
        ▷ push-Writes _
        ▷ push-Writes (contents hostname)
        ▷ push-Writes _
        ▷ push-Writes (contents p.nick)
        ▷ push-Writes _)
      (λ r. simp (append_assoc))

push_items-Writes :
    (room : Room) (hostname : BufferPtr) (ps : List Participant)
    → Writes (push_items room hostname ps) (print (room_items room hostname ps))
unfolding push_items
push_items-Writes room hostname [] = skip-Writes
push_items-Writes room hostname (p ∷ ps) =
    push_item-Writes room hostname p ▷ push_items-Writes room hostname ps

pub build_room_items-Writes :
    (room : Room) (hostname : BufferPtr)
    → Writes
        (build_room_items room hostname)
        (print (room_items room hostname room.participants.entries))
unfolding build_room_items
build_room_items-Writes room hostname = push_items-Writes room hostname room.participants.entries

feature-Writes :
    (var : Bytes) → Writes (push (lit "<feature var='" ++ (var ++ lit "'/>"))) (print (feature var))
feature-Writes var =
    as_text (push-Writes _)
      (λ r. ap (λ x. lit "<feature var='" ++ x) (sym (append_assoc var (lit "'/>") r)))

push_feature-Writes :
    (test : Bool) (a b : Bytes)
    → Writes (push_feature test a b) (print (if test then feature a else feature b))
unfolding push_feature
push_feature-Writes test a b =
    if-Writes test (feature a) (feature b) (feature-Writes a) (feature-Writes b)

push_items_feature-Writes :
    (public : Bool)
    → Writes
        (push_items_feature public)
        (print (if public then feature (lit "http://jabber.org/protocol/disco#items") else nil))
unfolding push_items_feature
push_items_feature-Writes public =
    if-Writes public (feature _) nil (as_text (push-Writes _) (λ r. refl)) skip-Writes

pub build_room_info-Writes : (room : Room) → Writes (build_room_info room) (print (room_info room))
unfolding build_room_info
build_room_info-Writes room =
    as_text
      (push-Writes _
        ▷ push-Writes (contents (if bpt_blank room.title then room.node else room.title))
        ▷ push-Writes _
        ▷ push_items_feature-Writes room.flags.public_participants
        ▷ push_feature-Writes room.flags.public_room _ _
        ▷ push_feature-Writes room.flags.persistent_room _ _
        ▷ push_feature-Writes room.flags.members_only _ _
        ▷ push_feature-Writes room.flags.semi_anonymous _ _
        ▷ push_feature-Writes room.flags.moderated_room _ _
        ▷ push_feature-Writes room.flags.password_protected_room _ _)
      (λ r. refl)

push_affiliation_reason-Writes :
    (reason : BufferPtr)
    → Writes
        (push_affiliation_reason reason)
        (λ r. lit "'>" ++ print (reason_tree reason) (lit "</item>" ++ r))
unfolding push_affiliation_reason
push_affiliation_reason-Writes none = as_text (push-Writes _) (λ r. refl)
push_affiliation_reason-Writes (some reason) =
    as_text (push-Writes _ ▷ push-Writes reason ▷ push-Writes _) (λ r. refl)

pub build_room_affiliations-Writes :
    (items : List Affiliation) (a : ℕ) (name : Bytes)
    → affiliation_name a ≡ ok name
    → Writes (build_room_affiliations items a) (print (affiliation_items name items))
unfolding build_room_affiliations
build_room_affiliations-Writes [] a name e = skip-Writes
build_room_affiliations-Writes (x ∷ rest) a name e =
    as_text
      (push-Writes _
        ▷ push_name-Writes (affiliation_name a) name e
        ▷ push-Writes _
        ▷ push-Writes (jid_str x.jid)
        ▷ push_affiliation_reason-Writes x.reason_node
        ▷ build_room_affiliations-Writes rest a name e)
      (λ r. refl)
