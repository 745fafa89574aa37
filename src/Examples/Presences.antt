-- ===== src/Examples/Presences.antt =====
-- `route_presence` at the stanzas of the examples.
use mukite.Examples.Data.{ann, bob, acl, ann_owns, ann_in_room, cmp_runs}
use mukite.Room.Kick.{route_error}
use mukite.Room.Kick.Removal.{Removed, route_error-Removed}
use mukite.Packet.{
  stanza_error, IncomingPacket, packet_cleanup, blank_span, blank_type, blank_attr, fill,
  cleanup_from_to,
}
use mukite.Common.{Ensures, ◌≡◌, refl, none, some, lit, arith, ok}
use mukite.Jid.Compare.{NodeFilled}
use mukite.Acl.{acl_role}
use mukite.Participant.{participants_find_by_jid, participants_find_by_nick, find_by_jid}
use mukite.Affiliation.{affiliationss_add}
use mukite.Affiliation.Sizes.{Counted, affiliationss_add-Counted}
use mukite.Room.{Routed}
use mukite.Room.Valid.{OccupantsValid}
use mukite.Room.Presence.{parse_muc_node, route_presence}
use mukite.Room.Presence.Occupants.{route_presence-OccupantsValid}
use mukite.Room.Presence.Join.{route_presence-newcomer_by_rank}
use mukite.Room.Presence.Admins.{JoinedAsOwner, route_presence-admin_joins}
use mukite.Room.Presence.Privacy.{AllShielded}
use mukite.Room.Presence.Shielding.{ModeratorOf}
use mukite.Room.Presence.Anonymity.{route_presence-AllShielded}
use mukite.Examples.Rooms.{den, boss, boss_enters, bob_enters, den-OccupantsValid}

filled : NodeFilled (some (lit "boss"))
filled = λ e. cc

filled_resource : NodeFilled (some (lit "desk"))
filled_resource = λ e. cc

route_presence-OccupantsValid_example :
    Ensures (λ r. OccupantsValid r.room) (route_presence den boss_enters acl)
route_presence-OccupantsValid_example =
    route_presence-OccupantsValid den boss_enters acl den-OccupantsValid filled filled_resource
      (omega arith)

route_presence-AllShielded_example :
    Ensures (λ l. AllShielded (ModeratorOf den l.room) l.sent) (route_presence den boss_enters acl)
route_presence-AllShielded_example =
    route_presence-AllShielded den boss_enters acl den-OccupantsValid refl

ann_owns-Counted : Counted ann_owns
ann_owns-Counted = record {
  outcasts = refl;
  nones = refl;
  members = refl;
  admins = refl;
  owners = refl;
}

affiliationss_add-Counted_example :
    Counted (affiliationss_add ann_owns (some ann_in_room) 3 bob none).0
affiliationss_add-Counted_example =
    affiliationss_add-Counted ann_owns (some ann_in_room) 3 bob none ann_owns-Counted

bob_is_new : participants_find_by_jid den.participants.entries bob ≡ none
unfolding participants_find_by_jid find_by_jid cmp_runs
bob_is_new = refl

bob_rank : acl_role acl bob ≡ 1
unfolding acl_role cmp_runs
bob_rank = refl

route_presence-newcomer_by_rank_example :
    Ensures (λ r. r.room.participants ≡ den.participants) (route_presence den bob_enters acl)
route_presence-newcomer_by_rank_example =
    route_presence-newcomer_by_rank den bob_enters acl ann_owns-Counted bob_is_new
      (omega (arith, bob_rank))

boss_is_new : participants_find_by_jid den.participants.entries boss ≡ none
unfolding participants_find_by_jid find_by_jid cmp_runs
boss_is_new = refl

nick_is_free : participants_find_by_nick den.participants.entries (some (lit "Boss")) ≡ none
unfolding participants_find_by_nick cmp_runs
nick_is_free = refl

boss_rank : acl_role acl boss ≡ 4
unfolding acl_role cmp_runs
boss_rank = refl

-- The stanza with its addresses blanked.
abbrev boss_cleaned : IncomingPacket
boss_cleaned = record boss_enters { mem = lit "                />" }

cleaned : packet_cleanup boss_enters cleanup_from_to ≡ ok boss_cleaned
unfolding packet_cleanup blank_span blank_type blank_attr fill
cleaned = refl

no_muc : parse_muc_node boss_enters.mem boss_enters.muc ≡ ok none
unfolding parse_muc_node
no_muc = refl

route_presence-admin_joins_example :
    (l : Routed) × (route_presence den boss_enters acl ≡ ok l) × JoinedAsOwner den boss_enters l
route_presence-admin_joins_example =
    route_presence-admin_joins den boss_enters boss_cleaned acl none no_muc cleaned boss_is_new
      (omega (arith, boss_rank)) (omega arith) refl (omega arith) nick_is_free

-- Ann's client sends an error.
abbrev ann_errs : IncomingPacket
ann_errs = record boss_enters { type = stanza_error; real_from = ann }

ann_is_in : participants_find_by_jid den.participants.entries ann ≡ some ann_in_room
unfolding participants_find_by_jid find_by_jid cmp_runs
ann_is_in = refl

route_error-Removed_example : Ensures (Removed den ann_in_room) (route_error den ann_errs)
route_error-Removed_example =
    route_error-Removed den ann_errs ann_in_room den-OccupantsValid ann_is_in
