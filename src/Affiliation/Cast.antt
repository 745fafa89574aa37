-- ===== src/Affiliation/Cast.antt =====
-- What `affiliationss_get_by_jid` reads where room.c calls it, through a cast of the five lists.
use mukite.Common.{
  ℕ, ◌≡◌, refl, ◌≤◌, ◌<◌, List, [], ◌∷◌, arith, length, Outcome, Fault, fault, null_pointer,
  wild_pointer,
}
use mukite.Jid.{Jid, jid_node_host}
use mukite.Acl.{AclConfig, acl_role, acl_muc_admin}
use mukite.Affiliation.{
  Affiliation, Affiliations, AffiliationsList, affiliationss_get_by_jid, affiliations_by_cast,
  search_lists, head_of, affiliations_find_by_jid, find_from, head_word, size_word, ListPtr,
}

-- The counter of a list is at least the number of its nodes.
abbrev pub Counted : AffiliationsList → Type 0
Counted l = length l.entries ≤ l.size

-- The outcome is not a value.
abbrev pub Faults : Outcome ℕ → Type 0
Faults r = (f : Fault) × (r ≡ fault f)

search_by_cast :
    (es : List Affiliation) (size max_size : ℕ) (rest : List ListPtr) (j : Jid)
    → length es ≤ size
    → (f : Fault) × (search_lists
          (head_word es
            ∷ size_word (record { entries = es; size = size; max_size = max_size })
            ∷ rest)
          0
          j
          jid_node_host
        ≡ fault f)
unfolding search_lists head_of affiliations_find_by_jid find_from
search_by_cast [] size max_size rest j c = (null_pointer, refl)
search_by_cast (a ∷ es) size max_size rest j c = (wild_pointer, ground arith)

-- Called as room.c calls it, the search faults on a bad pointer for every JID whose rank is below
-- ACL_MUC_ADMIN, whatever the affiliations are, as long as the outcasts are no more than their
-- counter says.
pub get_by_jid-cast-Faults :
    (l : Affiliations) (acl : AclConfig) (j : Jid)
    → Counted l.outcasts
    → acl_role acl j < acl_muc_admin
    → Faults (affiliationss_get_by_jid (affiliations_by_cast l) acl j)
unfolding affiliationss_get_by_jid
get_by_jid-cast-Faults l acl j c low =
    let (f, e) =
      search_by_cast l.outcasts.entries l.outcasts.size l.outcasts.max_size
        (head_word l.nones.entries ∷ size_word l.nones ∷ head_word l.members.entries ∷ []) j c in
    (f, ground (arith, e))
