-- ===== src/Affiliation/Search.antt =====
-- What a call of `affiliationss_add` finds of the entries that the calls before it made.
use mukite.Common.{
  ℕ, zero, suc, ◌≡◌, refl, ◌≤◌, ◌<◌, ◌⊎◌, inl, inr, Option, none, some, List, [], ◌∷◌, arith,
  if◌then◌else◌, ◌==◌, true, Bool-cases,
}
use mukite.Buffer.{BufferPtr}
use mukite.Jid.{Jid, jid_cmp, jid_node_host}
use mukite.Jid.Compare.{NodeFilled}
use mukite.Participant.{Participant}
use mukite.Affiliation.{
  Affiliation, Affiliations, NodePtr, find_from, affiliations_find_by_jid, affiliationss_add,
  list_at, locate, affil_none, affil_owner, affil_outcast,
}
use mukite.Affiliation.Count.{hits, total, Unique}
use mukite.Affiliation.Add.{affiliationss_add-Settled, affiliationss_add-placed}

-- A search finds an entry exactly where the list has one for the account.
find_cases :
    (es : List Affiliation) (j : Jid) (k : ℕ)
    → ((find_from k es j jid_node_host ≡ none) × (hits es j ≡ 0))
      ⊎ ((p : NodePtr) × (find_from k es j jid_node_host ≡ some p) × (0 < hits es j))
unfolding find_from
find_cases [] j k = inl (refl, refl)
find_cases (a ∷ es) j k = elim (Bool-cases (jid_cmp a.jid j jid_node_host == 0)) [
  | inl same ↦ inr ((k, a), ground arith, ground arith)
  | inr other ↦ elim (find_cases es j (suc k)) [
    | inl (missing, e) ↦ inl (ground arith, ground arith)
    | inr (p, found, e) ↦ inr (p, ground arith, ground arith)
  ]
]

-- The list that an entry was found in.
abbrev pub list_of : Option (ℕ × NodePtr) → Option ℕ
list_of none = none
list_of (some (list, node)) = some list

-- The list that an affiliation's entry stands in.
abbrev pub entry_list : ℕ → Option ℕ
entry_list a = if a == affil_none then none else some a

-- The search of `affiliationss_add` finds the account in the one list that holds an entry for it.
locate-only :
    (l : Affiliations) (a : ℕ) (j : Jid)
    → a ≤ affil_owner
    → total l j ≡ 1
    → 0 < hits (list_at l a).entries j
    → list_of (locate l 5 affil_outcast j) ≡ some a
unfolding locate affiliations_find_by_jid
locate-only l zero j b t h = ground (arith, find_cases l.outcasts.entries j 0)
locate-only l (suc zero) j b t h =
    ground (arith, find_cases l.outcasts.entries j 0, find_cases l.nones.entries j 0)
locate-only l (suc (suc zero)) j b t h = ground (
  arith,
  find_cases l.outcasts.entries j 0,
  find_cases l.nones.entries j 0,
  find_cases l.members.entries j 0,
)
locate-only l (suc (suc (suc zero))) j b t h = ground (
  arith,
  find_cases l.outcasts.entries j 0,
  find_cases l.nones.entries j 0,
  find_cases l.members.entries j 0,
  find_cases l.admins.entries j 0,
)
locate-only l (suc (suc (suc (suc n)))) j b t h = ground (
  arith,
  find_cases l.outcasts.entries j 0,
  find_cases l.nones.entries j 0,
  find_cases l.members.entries j 0,
  find_cases l.admins.entries j 0,
  find_cases l.owners.entries j 0,
)

locate-missing :
    (l : Affiliations) (j : Jid) → total l j ≡ 0 → list_of (locate l 5 affil_outcast j) ≡ none
unfolding locate affiliations_find_by_jid
locate-missing l j t = ground (
  arith,
  find_cases l.outcasts.entries j 0,
  find_cases l.nones.entries j 0,
  find_cases l.members.entries j 0,
  find_cases l.admins.entries j 0,
  find_cases l.owners.entries j 0,
)

-- After a successful call, the search that the next call for the account begins with finds its entry in
-- the list of the affiliation that was given, and none if that was AFFIL_NONE. It is assumed that no
-- account had two entries, and that the node of the JID is not an empty string.
pub locate-add :
    (l : Affiliations) (sender : Option Participant) (a : ℕ) (j : Jid) (reason : BufferPtr)
    → Unique l
    → NodeFilled j.node
    → a ≤ affil_owner
    → (affiliationss_add l sender a j reason).1 ≡ true
    → list_of (locate (affiliationss_add l sender a j reason).0 5 affil_outcast j) ≡ entry_list a
locate-add l sender a j reason u f b h =
    let s = affiliationss_add-Settled l sender a j reason u f h in
    let l' : Affiliations = (affiliationss_add l sender a j reason).0 in
    elim (Bool-cases (a == affil_none)) [
      | inl gone ↦ rw gone (locate-missing l' j (ground (arith, s.own, gone)))
      | inr given ↦ rw given (
          locate-only l' a j b (ground (arith, s.own, given))
            (affiliationss_add-placed l sender a j reason f h (ground (arith, given))))
    ]
