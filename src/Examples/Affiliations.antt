-- ===== src/Examples/Affiliations.antt =====
-- affiliations.c at concrete lists.
use mukite.Common.{◌≡◌, refl, ◌<◌, true, false, none, some, arith, length}
use mukite.Acl.{acl_role}
use mukite.Affiliation.{
  affiliationss_add, affiliationss_get_by_jid, affiliations_by_cast, locate,
  affiliations_find_by_jid,
}
use mukite.Affiliation.Cast.{Faults, get_by_jid-cast-Faults}
use mukite.Affiliation.Count.{hits, Unique}
use mukite.Affiliation.Add.{Settled, affiliationss_add-Settled}
use mukite.Affiliation.Search.{list_of, locate-add}
use mukite.Affiliation.Owners.{add-by_non_owner, add-keeps_owner}
use mukite.Examples.Data.{cmp_runs, ann, bob, acl, ann_owns, ann_in_room, bob_in_room}

low_rank : acl_role acl bob ≡ 1
unfolding acl_role cmp_runs
low_rank = refl

get_by_jid-cast-Faults_example :
    Faults (affiliationss_get_by_jid (affiliations_by_cast ann_owns) acl bob)
get_by_jid-cast-Faults_example =
    get_by_jid-cast-Faults ann_owns acl bob (omega arith) (omega (arith, low_rank))

ann_owns-Unique : Unique ann_owns
ann_owns-Unique j = ground arith

-- The owner makes Bob an admin.
promoted : (affiliationss_add ann_owns (some ann_in_room) 3 bob none).1 ≡ true
unfolding affiliationss_add locate affiliations_find_by_jid cmp_runs
promoted = refl

-- The only owner may not step down.
kept : affiliationss_add ann_owns (some ann_in_room) 1 ann none ≡ (ann_owns, false)
unfolding affiliationss_add locate affiliations_find_by_jid cmp_runs
kept = refl

affiliationss_add-Settled_example :
    Settled ann_owns (affiliationss_add ann_owns (some ann_in_room) 3 bob none).0 3 bob
affiliationss_add-Settled_example =
    affiliationss_add-Settled ann_owns (some ann_in_room) 3 bob none ann_owns-Unique (ground arith)
      promoted

locate-add_example :
    list_of (locate (affiliationss_add ann_owns (some ann_in_room) 3 bob none).0 5 0 bob) ≡ some 3
locate-add_example =
    locate-add ann_owns (some ann_in_room) 3 bob none ann_owns-Unique (ground arith) (omega arith)
      promoted

add-by_non_owner_example :
    let l' = (affiliationss_add ann_owns (some bob_in_room) 0 ann none).0 in
    (l'.admins ≡ ann_owns.admins) × (l'.owners ≡ ann_owns.owners)
add-by_non_owner_example = add-by_non_owner ann_owns bob_in_room 0 ann none (omega arith)

ann_listed : 0 < hits ann_owns.owners.entries ann
unfolding cmp_runs
ann_listed = omega arith

add-keeps_owner_example :
    0 < length (affiliationss_add ann_owns (some ann_in_room) 1 ann none).0.owners.entries
add-keeps_owner_example = add-keeps_owner ann_owns ann_in_room 1 ann none ann_listed
