-- ===== src/Affiliation/Sizes.antt =====
-- The counters of the five lists.
use mukite.Common.{
  ℕ, [], ◌∷◌, ◌≡◌, ◌<◌, Option, inl, inr, ◌==◌, arith, length, length-append, length-delete_at,
  Bool-cases, Option-cases,
}
use mukite.Buffer.{BufferPtr}
use mukite.Utss.{dls_delete}
use mukite.Jid.{Jid}
use mukite.Participant.{Participant}
use mukite.Affiliation.{
  Affiliation, Affiliations, AffiliationsList, affiliationss_add, put_entry, locate, list_at,
  set_list, affiliation_init, affil_none, affil_outcast,
}
use mukite.Affiliation.Each.{Each, list_at-Each, set_list-Each}
use mukite.Affiliation.Count.{locate-Located}

abbrev LengthCounted : AffiliationsList → Type 0
LengthCounted l = length l.entries ≡ l.size

-- The counter of every list is the number of its nodes.
abbrev pub Counted : Affiliations → Type 0
Counted l = Each LengthCounted l

put_entry-Counted :
    (l : Affiliations) (e : Affiliation) (a : ℕ) (j : Jid) (reason : BufferPtr)
    → Counted l
    → Counted (put_entry l e a j reason)
unfolding put_entry
put_entry-Counted l e a j reason v = elim (Bool-cases (a == affil_none)) [
  | inl is_none ↦ rw is_none v
  | inr other ↦ rw other (
      set_list-Each LengthCounted l a _ v (
        omega
          (arith, list_at-Each LengthCounted l a v, length-append (list_at l a).entries (_ ∷ []))))
]

taken-Counted :
    (l : Affiliations) (b i : ℕ)
    → Counted l
    → i < length (list_at l b).entries
    → Counted (set_list l b (dls_delete (list_at l b) i))
taken-Counted l b i v within = set_list-Each LengthCounted l b _ v (
    omega
      (arith, list_at-Each LengthCounted l b v, length-delete_at i (list_at l b).entries within))

-- Every call of `affiliationss_add` keeps the counters of the five lists equal to the numbers of their
-- nodes, whether it succeeds or not.
pub affiliationss_add-Counted :
    (l : Affiliations) (sender : Option Participant) (a : ℕ) (j : Jid) (reason : BufferPtr)
    → Counted l
    → Counted (affiliationss_add l sender a j reason).0
unfolding affiliationss_add
affiliationss_add-Counted l sender a j reason v = elim (Option-cases (locate l 5 affil_outcast j)) [
  | inl missing ↦ ground (arith, put_entry-Counted l affiliation_init a j reason v)
  | inr ((b, (i, e)), found) ↦ ground (
    arith,
    put_entry-Counted (set_list l b (dls_delete (list_at l b) i)) e a j reason
        (taken-Counted l b i v (locate-Located l 5 affil_outcast j found).within),
  )
]
