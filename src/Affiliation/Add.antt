-- ===== src/Affiliation/Add.antt =====
-- `affiliationss_add`: what it changes, and what a later search finds.
use mukite.Common.{
  ℕ, ◌+◌, ◌≡◌, refl, sym, subst, ◌≢◌, ◌<◌, ◌⊎◌, inl, inr, Option, none, some, arith, length, ◌==◌,
  if◌then◌else◌, true, false, Bool-cases, Option-cases, ◌&&◌,
}
use mukite.Buffer.{BufferPtr}
use mukite.Utss.{dls_append, dls_delete}
use mukite.Jid.{Jid, jid_cmp, jid_node_host, jid_set}
use mukite.Jid.Compare.{NodeFilled, jid_cmp_refl, jid_cmp-jid_set}
use mukite.Participant.{Participant}
use mukite.Affiliation.{
  Affiliation, Affiliations, affiliationss_add, put_entry, locate, list_at, set_list,
  affiliation_init, affiliation_set_reason, affil_none, affil_owner, is_sender, affil_outcast,
}
use mukite.Affiliation.Count.{
  hit, hits, total, Unique, hits-append, hit_congr, total_congr, total-set_list, list_at-set_list,
  Located, locate-Located, locate-none,
}

-- The number of entries for an account that an affiliation stands for.
abbrev pub entries_for : ℕ → ℕ
entries_for a = if a == affil_none then 0 else 1

-- The entry of the account `j` that is filled and appended counts for `j`, and only for it.
put_entry-total :
    (l : Affiliations) (entry : Affiliation) (a : ℕ) (j : Jid) (reason : BufferPtr) (x : Jid)
    → NodeFilled j.node
    → total (put_entry l entry a j reason) x ≡ total l x + (if a == affil_none then 0 else hit j x)
unfolding put_entry affiliation_set_reason
put_entry-total l entry a j reason x f = elim (Bool-cases (a == affil_none)) [
  | inl is_none ↦ rw is_none (omega arith)
  | inr other ↦ rw other (
      omega (
        arith,
        total-set_list l a
            (dls_append (list_at l a)
              (affiliation_set_reason (record entry { jid = jid_set j jid_node_host }) reason).0)
            x,
        hits-append (list_at l a).entries
            (affiliation_set_reason (record entry { jid = jid_set j jid_node_host }) reason).0 x,
        hit_congr (jid_set j jid_node_host) j x (jid_cmp-jid_set j f),
      ))
]

taken_off-total :
    (l : Affiliations) (j x : Jid) {b i : ℕ} {e : Affiliation}
    → Located l j b i e
    → total (set_list l b (dls_delete (list_at l b) i)) x + hit j x ≡ total l x
taken_off-total l j x {b} {i} {e} f = omega (
  arith,
  total-set_list l b (dls_delete (list_at l b) i) x,
  f.deleted x,
  hit_congr e.jid j x f.matches,
)

-- What a successful call did: the account had no entry, or its entry was taken off; and then the
-- new one was put in, unless the affiliation is AFFIL_NONE.
record Added (l l' : Affiliations) (a : ℕ) (j : Jid) : Type 0 where
  counts :
      (x : Jid)
      → ((total l j ≡ 0) × (total l' x ≡ total l x + (if a == affil_none then 0 else hit j x)))
        ⊎ (total l' x + hit j x ≡ total l x + (if a == affil_none then 0 else hit j x))
  placed : a ≢ affil_none → 0 < hits (list_at l' a).entries j

hit_self : (j : Jid) → hit j j ≡ 1
hit_self j = ground (arith, jid_cmp_refl jid_node_host refl j)

put_entry-placed :
    (l : Affiliations) (entry : Affiliation) (a : ℕ) (j : Jid) (reason : BufferPtr)
    → NodeFilled j.node
    → a ≢ affil_none
    → 0 < hits (list_at (put_entry l entry a j reason) a).entries j
unfolding put_entry affiliation_set_reason
put_entry-placed l entry a j reason f ne =
    let filled : Affiliation =
      (affiliation_set_reason (record entry { jid = jid_set j jid_node_host }) reason).0 in
    let kept : (a == affil_none) ≡ false = ground arith in
    rw (kept, list_at-set_list l a (dls_append (list_at l a) filled))
      (omega (
        arith,
        hits-append (list_at l a).entries filled j,
        hit_congr (jid_set j jid_node_host) j j (jid_cmp-jid_set j f),
        hit_self j,
      ))

-- A call that succeeds put in a fresh entry, where the account had none, or the one it took off.
pub add_success :
    (l : Affiliations) (sender : Option Participant) (a : ℕ) (j : Jid) (reason : BufferPtr)
    → (affiliationss_add l sender a j reason).1 ≡ true
    → ((locate l 5 affil_outcast j ≡ none)
        × ((affiliationss_add l sender a j reason).0 ≡ put_entry l affiliation_init a j reason))
      ⊎ ((b i : ℕ) × (e : Affiliation) × (locate l 5 affil_outcast j ≡ some (b, (i, e)))
          × ((b == affil_owner
                && (is_sender sender e.jid && (i == 0 && length l.owners.entries == 1)))
              ≡ false)
          × ((affiliationss_add l sender a j reason).0
              ≡ put_entry (set_list l b (dls_delete (list_at l b) i)) e a j reason))
unfolding affiliationss_add
add_success l sender a j reason h = elim (Option-cases (locate l 5 affil_outcast j)) [
  | inl missing ↦ inl (missing, ground arith)
  | inr ((b, (i, e)), found) ↦ inr (b, i, e, found, ground arith, ground arith)
]

added :
    (l : Affiliations) (sender : Option Participant) (a : ℕ) (j : Jid) (reason : BufferPtr)
    → NodeFilled j.node
    → (affiliationss_add l sender a j reason).1 ≡ true
    → Added l (affiliationss_add l sender a j reason).0 a j
added l sender a j reason f h = elim (add_success l sender a j reason h) [
  | inl (missing, e) ↦
      subst (λ t. Added l t a j) (sym e)
        (record {
          counts = λ x. inl (
            locate-none l 5 affil_outcast j missing,
            put_entry-total l affiliation_init a j reason x f,
          );
          placed = put_entry-placed l affiliation_init a j reason f;
        })
  | inr (b, i, entry, found, guard, e) ↦
      let off : Affiliations = set_list l b (dls_delete (list_at l b) i) in
      subst (λ t. Added l t a j) (sym e)
        (record {
          counts = λ x. inr (
              omega (
                arith,
                put_entry-total off entry a j reason x f,
                taken_off-total l j x (locate-Located l 5 affil_outcast j found),
              ));
          placed = put_entry-placed off entry a j reason f;
        })
]

-- What the lists hold for every account after a successful call.
pub record Settled (l l' : Affiliations) (a : ℕ) (j : Jid) : Type 0 where
  pub unique : Unique l'
  pub own : total l' j ≡ entries_for a
  pub others : (x : Jid) → hit j x ≡ 0 → total l' x ≡ total l x

hit_cases : (j x : Jid) → (hit j x ≡ 0) ⊎ ((hit j x ≡ 1) × (jid_cmp j x jid_node_host ≡ 0))
hit_cases j x = ground arith

-- A successful call leaves no account with two entries, and the account that it is about with one
-- entry, or with none if the affiliation is AFFIL_NONE; for every other account the number of
-- entries stays. It is assumed that no account had two, and that the node of the JID is not an
-- empty string.
pub affiliationss_add-Settled :
    (l : Affiliations) (sender : Option Participant) (a : ℕ) (j : Jid) (reason : BufferPtr)
    → Unique l
    → NodeFilled j.node
    → (affiliationss_add l sender a j reason).1 ≡ true
    → Settled l (affiliationss_add l sender a j reason).0 a j
affiliationss_add-Settled l sender a j reason u f h =
    let s = added l sender a j reason f h in
    let l' : Affiliations = (affiliationss_add l sender a j reason).0 in
    let own : total l' j ≡ entries_for a = ground (arith, s.counts j, hit_self j, s.placed, u j) in
    record {
      own = own;
      others = λ x ne. ground (arith, s.counts x);
      unique = λ x. ground (arith, s.counts x, u x, hit_cases j x, total_congr l' j x, own);
    }

pub affiliationss_add-placed :
    (l : Affiliations) (sender : Option Participant) (a : ℕ) (j : Jid) (reason : BufferPtr)
    → NodeFilled j.node
    → (affiliationss_add l sender a j reason).1 ≡ true
    → a ≢ affil_none
    → 0 < hits (list_at (affiliationss_add l sender a j reason).0 a).entries j
affiliationss_add-placed l sender a j reason f h = (added l sender a j reason f h).placed
