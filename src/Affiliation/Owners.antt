-- ===== src/Affiliation/Owners.antt =====
-- `affiliationss_add` and the lists of admins and owners.
use mukite.Common.{
  ℕ, zero, suc, ◌+◌, ◌≡◌, refl, subst, ◌≢◌, ◌≤◌, ◌<◌, ◌⊎◌, inl, inr, Option, some, List, [], ◌∷◌,
  arith, length, delete_at, ◌==◌, false, Bool-cases, Option-cases, ◌&&◌, length-append,
  length-delete_at,
}
use mukite.Buffer.{BufferPtr}
use mukite.Utss.{dls_append, dls_delete}
use mukite.Jid.{Jid, jid_cmp, jid_node_host}
use mukite.Jid.Compare.{jid_cmp_symm}
use mukite.Participant.{Participant}
use mukite.Affiliation.{
  Affiliation, Affiliations, AffiliationsList, affiliationss_add, put_entry, locate, list_at,
  set_list, affiliation_init, affil_none, affil_admin, affil_owner, is_sender, affil_outcast,
}
use mukite.Affiliation.Count.{hit, hits, Located, locate-Located}
use mukite.Affiliation.Add.{add_success}

-- A call that fails changes nothing.
pub add-refused :
    (l : Affiliations) (sender : Option Participant) (a : ℕ) (j : Jid) (reason : BufferPtr)
    → (affiliationss_add l sender a j reason).1 ≡ false
    → (affiliationss_add l sender a j reason).0 ≡ l
unfolding affiliationss_add
add-refused l sender a j reason h = ground arith

-- The two lists that only an owner may change.
record SameTop (l l' : Affiliations) : Type 0 where
  admins : l'.admins ≡ l.admins
  owners : l'.owners ≡ l.owners

set_list-SameTop :
    (l : Affiliations) (b : ℕ) (x : AffiliationsList) → b < affil_admin → SameTop l (set_list l b x)
set_list-SameTop l zero x h = record { admins = refl; owners = refl }
set_list-SameTop l (suc zero) x h = record { admins = refl; owners = refl }
set_list-SameTop l (suc (suc zero)) x h = record { admins = refl; owners = refl }
set_list-SameTop l (suc (suc (suc n))) x h = absurd (omega arith)

put_entry-SameTop :
    (l : Affiliations) (e : Affiliation) (a : ℕ) (j : Jid) (reason : BufferPtr)
    → a < affil_admin
    → SameTop l (put_entry l e a j reason)
unfolding put_entry
put_entry-SameTop l e a j reason h = elim (Bool-cases (a == affil_none)) [
  | inl is_none ↦ rw is_none (record { admins = refl; owners = refl })
  | inr other ↦ rw other (set_list-SameTop l a _ h)
]

-- A sender who is no owner changes neither the list of admins nor that of owners, whatever the
-- affiliation asked for, and whether the call succeeds or not.
pub add-by_non_owner :
    (l : Affiliations) (p : Participant) (a : ℕ) (j : Jid) (reason : BufferPtr)
    → p.affiliation ≢ affil_owner
    → let l' = (affiliationss_add l (some p) a j reason).0 in
      (l'.admins ≡ l.admins) × (l'.owners ≡ l.owners)
unfolding affiliationss_add
add-by_non_owner l p a j reason ne = elim (Option-cases (locate l 5 affil_outcast j)) [
  | inl missing ↦ ground (arith, put_entry-SameTop l affiliation_init a j reason)
  | inr ((b, (i, e)), found) ↦ ground (
    arith,
    put_entry-SameTop (set_list l b (dls_delete (list_at l b) i)) e a j reason,
    set_list-SameTop l b (dls_delete (list_at l b) i),
  )
]

-- The number of owners after an entry is put in, or a list is replaced.
put_entry-owners :
    (l : Affiliations) (e : Affiliation) (a : ℕ) (j : Jid) (reason : BufferPtr)
    → length l.owners.entries ≤ length (put_entry l e a j reason).owners.entries
unfolding put_entry
put_entry-owners l e a j reason = elim (Bool-cases (a == affil_none)) [
  | inl is_none ↦ rw is_none (omega arith)
  | inr other ↦ rw other (append-owners l a _)
]
  where
    append-owners :
        (l : Affiliations) (a : ℕ) (x : Affiliation)
        → length l.owners.entries
          ≤ length (set_list l a (dls_append (list_at l a) x)).owners.entries
    append-owners l zero x = omega arith
    append-owners l (suc zero) x = omega arith
    append-owners l (suc (suc zero)) x = omega arith
    append-owners l (suc (suc (suc zero))) x = omega arith
    append-owners l (suc (suc (suc (suc n)))) x =
        omega (arith, length-append l.owners.entries (x ∷ []))

delete-owners :
    (l : Affiliations) (b i : ℕ)
    → i < length (list_at l b).entries
    → (1 < length l.owners.entries) ⊎ ((b < affil_owner) × (0 < length l.owners.entries))
    → 0 < length (set_list l b (dls_delete (list_at l b) i)).owners.entries
delete-owners l zero i h c = omega arith
delete-owners l (suc zero) i h c = omega arith
delete-owners l (suc (suc zero)) i h c = omega arith
delete-owners l (suc (suc (suc zero))) i h c = omega arith
delete-owners l (suc (suc (suc (suc n)))) i h c =
    omega (arith, length-delete_at i l.owners.entries h)

locate-lt :
    (l : Affiliations) (n a : ℕ) (j : Jid) {b i : ℕ} {e : Affiliation}
    → locate l n a j ≡ some (b, (i, e))
    → b < a + n
unfolding locate
locate-lt l zero a j h = cc
locate-lt l (suc n) a j {b} {i} {e} h =
    ground (arith, locate-lt l n (suc a) j {b = b} {i = i} {e = e})

-- The only node of the owners' list names every account that the list has an entry for.
sole-hit :
    (es : List Affiliation) (i : ℕ) (e : Affiliation) (x : Jid)
    → length es ≡ 1
    → i < length es
    → hits (delete_at i es) x + hit e.jid x ≡ hits es x
    → 0 < hits es x
    → (i ≡ 0) × (jid_cmp x e.jid jid_node_host ≡ 0)
sole-hit [] i e x one h d pos = absurd (omega arith)
sole-hit (a ∷ b ∷ es) i e x one h d pos = absurd (omega arith)
sole-hit (a ∷ []) (suc i) e x one h d pos = absurd (omega arith)
sole-hit (a ∷ []) zero e x one h d pos =
    (refl, ground (arith, jid_cmp_symm jid_node_host refl e.jid x))

hits-le-length : (es : List Affiliation) (x : Jid) → hits es x ≤ length es
hits-le-length [] x = omega arith
hits-le-length (a ∷ es) x = ground (arith, hits-le-length es x)

-- The guard of the last owner, where it let the call pass: another owner is left.
another_owner :
    (l : Affiliations) (p : Participant) (i : ℕ) (e : Affiliation) {j : Jid}
    → 0 < hits l.owners.entries p.jid
    → Located l j affil_owner i e
    → (is_sender (some p) e.jid && (i == 0 && length l.owners.entries == 1)) ≡ false
    → 1 < length l.owners.entries
another_owner l p i e listed f guard =
    let few : (length l.owners.entries ≡ 1) ⊎ (1 < length l.owners.entries) =
      omega (arith, hits-le-length l.owners.entries p.jid) in
    elim few [
      | inr more ↦ more
      | inl one ↦
          let sole = sole-hit l.owners.entries i e p.jid one f.within (f.deleted p.jid) listed in
          ground (arith, sole.0, sole.1)
    ]

-- Where an entry was taken off its list, an owner is left.
moved-owners :
    (l : Affiliations) (p : Participant) (b i : ℕ) (e : Affiliation) {j : Jid}
    → 0 < hits l.owners.entries p.jid
    → b < 5
    → Located l j b i e
    → (b == affil_owner && (is_sender (some p) e.jid && (i == 0 && length l.owners.entries == 1)))
      ≡ false
    → 0 < length (set_list l b (dls_delete (list_at l b) i)).owners.entries
moved-owners l p b i e {j} listed lt f guard =
    let which : (b < affil_owner) ⊎ (b ≡ affil_owner) = omega arith in
    delete-owners l b i f.within (elim which [
      | inl lower ↦ inr (lower, omega (arith, hits-le-length l.owners.entries p.jid))
      | inr top ↦
          inl (another_owner l p i e listed (subst (λ c. Located l j c i e) top f) (ground arith))
    ])

-- While its sender has an entry among the owners, no call leaves the room without an owner.
pub add-keeps_owner :
    (l : Affiliations) (p : Participant) (a : ℕ) (j : Jid) (reason : BufferPtr)
    → 0 < hits l.owners.entries p.jid
    → 0 < length (affiliationss_add l (some p) a j reason).0.owners.entries
add-keeps_owner l p a j reason listed =
    elim (Bool-cases (affiliationss_add l (some p) a j reason).1) [
      | inr refused ↦
          rw (add-refused l (some p) a j reason refused)
            (omega (arith, hits-le-length l.owners.entries p.jid))
      | inl done ↦ elim (add_success l (some p) a j reason done) [
        | inl (missing, e) ↦ rw e (
            omega (
              arith,
              put_entry-owners l affiliation_init a j reason,
              hits-le-length l.owners.entries p.jid,
            ))
        | inr (b, i, entry, found, guard, e) ↦ rw e (
            omega (
              arith,
              put_entry-owners (set_list l b (dls_delete (list_at l b) i)) entry a j reason,
              moved-owners l p b i entry listed (locate-lt l 5 affil_outcast j found)
                  (locate-Located l 5 affil_outcast j found) guard,
            ))
      ]
    ]
