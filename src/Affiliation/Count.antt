-- ===== src/Affiliation/Count.antt =====
-- How many entries of the affiliation lists name an account.
use mukite.Common.{
  Bool-cases, Option-cases, inl, inr, subst, ℕ, zero, suc, ◌+◌, ◌≡◌, refl, ◌≤◌, ◌<◌, Option, none,
  some, List, [], ◌∷◌, ◌++◌, arith, length, delete_at, ◌==◌, if◌then◌else◌,
}
use mukite.Jid.{Jid, jid_cmp, jid_node_host}
use mukite.Jid.Compare.{jid_cmp_congr}
use mukite.Affiliation.{
  Affiliation, Affiliations, AffiliationsList, NodePtr, find_from, affiliations_find_by_jid,
  list_at, set_list, locate,
}

-- 1 if the entry names the account of the identifier, its node and host.
abbrev pub hit : Jid → Jid → ℕ
hit a j = if jid_cmp a j jid_node_host == 0 then 1 else 0

abbrev pub hits : List Affiliation → Jid → ℕ
hits [] j = 0
hits (a ∷ as') j = hit a.jid j + hits as' j

abbrev pub hits_from : Affiliations → ℕ → ℕ → Jid → ℕ
hits_from l zero a j = 0
hits_from l (suc n) a j = hits (list_at l a).entries j + hits_from l n (suc a) j

-- The entries that name the account, over the five lists.
abbrev pub total : Affiliations → Jid → ℕ
total l j = hits_from l 5 0 j

-- No account has two entries.
abbrev pub Unique : Affiliations → Type 0
Unique l = (j : Jid) → total l j ≤ 1

pub hits-append :
    (es : List Affiliation) (a : Affiliation) (j : Jid)
    → hits (es ++ (a ∷ [])) j ≡ hits es j + hit a.jid j
hits-append [] a j = omega arith
hits-append (e ∷ es) a j = omega (arith, hits-append es a j)

pub hit_congr : (a b j : Jid) → jid_cmp a b jid_node_host ≡ 0 → hit a j ≡ hit b j
hit_congr a b j h = ground (arith, jid_cmp_congr jid_node_host a b j refl h)

pub hits_congr :
    (es : List Affiliation) (i j : Jid) → jid_cmp i j jid_node_host ≡ 0 → hits es i ≡ hits es j
hits_congr [] i j h = refl
hits_congr (e ∷ es) i j h =
    ground (arith, hits_congr es i j h, jid_cmp_congr jid_node_host i j e.jid refl h)

pub total_congr :
    (l : Affiliations) (i j : Jid) → jid_cmp i j jid_node_host ≡ 0 → total l i ≡ total l j
total_congr l i j h = omega (
  arith,
  hits_congr l.outcasts.entries i j h,
  hits_congr l.nones.entries i j h,
  hits_congr l.members.entries i j h,
  hits_congr l.admins.entries i j h,
  hits_congr l.owners.entries i j h,
)

pub total-set_list :
    (l : Affiliations) (a : ℕ) (x : AffiliationsList) (j : Jid)
    → total (set_list l a x) j + hits (list_at l a).entries j ≡ total l j + hits x.entries j
total-set_list l zero x j = omega arith
total-set_list l (suc zero) x j = omega arith
total-set_list l (suc (suc zero)) x j = omega arith
total-set_list l (suc (suc (suc zero))) x j = omega arith
total-set_list l (suc (suc (suc (suc n)))) x j = omega arith

pub list_at-set_list :
    (l : Affiliations) (a : ℕ) (x : AffiliationsList) → list_at (set_list l a x) a ≡ x
list_at-set_list l zero x = refl
list_at-set_list l (suc zero) x = refl
list_at-set_list l (suc (suc zero)) x = refl
list_at-set_list l (suc (suc (suc zero))) x = refl
list_at-set_list l (suc (suc (suc (suc n)))) x = refl

find_from-none :
    (k : ℕ) (es : List Affiliation) (j : Jid)
    → find_from k es j jid_node_host ≡ none
    → hits es j ≡ 0
unfolding find_from
find_from-none k [] j h = refl
find_from-none k (e ∷ es) j h = ground (arith, find_from-none (suc k) es j)

-- What a search that succeeds found: an entry that matches, and that its position takes off the list.
pub record Found (k : ℕ) (es : List Affiliation) (j : Jid) (i : ℕ) (e : Affiliation) : Type 0 where
  pub offset : ℕ
  pub from : i ≡ k + offset
  pub within : offset < length es
  pub matches : jid_cmp e.jid j jid_node_host ≡ 0
  pub deleted : (x : Jid) → hits (delete_at offset es) x + hit e.jid x ≡ hits es x

Found-later :
    {k : ℕ} {es : List Affiliation} {j : Jid} {i : ℕ} {e : Affiliation} (a : Affiliation)
    → Found (suc k) es j i e
    → Found k (a ∷ es) j i e
Found-later a f = record {
  offset = suc f.offset;
  from = omega arith;
  within = omega arith;
  matches = f.matches;
  deleted = λ x. omega (arith, f.deleted x);
}

find_from-Found :
    (k : ℕ) (es : List Affiliation) (j : Jid) {i : ℕ} {e : Affiliation}
    → find_from k es j jid_node_host ≡ some (i, e)
    → Found k es j i e
unfolding find_from
find_from-Found k [] j h = cc
find_from-Found k (a ∷ es) j {i} {e} h = elim (Bool-cases (jid_cmp a.jid j jid_node_host == 0)) [
  | inl same ↦
      let here : ◌≡◌ {A = Option NodePtr} (some (k, a)) (some (i, e)) = ground arith in
      let pos : k ≡ i = ground arith in
      let node : a ≡ e = ground arith in
      record {
        offset = 0;
        from = omega arith;
        within = omega arith;
        matches = ground arith;
        deleted = λ x. ground arith;
      }
  | inr other ↦ Found-later a (find_from-Found (suc k) es j (ground arith))
]

-- What `locate` found: in the list `b`, the entry `e` at the position `i`.
pub record Located (l : Affiliations) (j : Jid) (b i : ℕ) (e : Affiliation) : Type 0 where
  pub within : i < length (list_at l b).entries
  pub matches : jid_cmp e.jid j jid_node_host ≡ 0
  pub deleted :
      (x : Jid)
      → hits (delete_at i (list_at l b).entries) x + hit e.jid x ≡ hits (list_at l b).entries x

located :
    (l : Affiliations) (j : Jid) (b i : ℕ) (e : Affiliation)
    → affiliations_find_by_jid (list_at l b).entries j jid_node_host ≡ some (i, e)
    → Located l j b i e
unfolding affiliations_find_by_jid
located l j b i e h =
    let f = find_from-Found 0 (list_at l b).entries j h in
    let pos : f.offset ≡ i = omega (arith, f.from) in
    record {
      within = omega (arith, f.within);
      matches = f.matches;
      deleted =
          subst
            (λ n.
              (x : Jid)
              → hits (delete_at n (list_at l b).entries) x + hit e.jid x
                ≡ hits (list_at l b).entries x)
            pos f.deleted;
    }

pub locate-Located :
    (l : Affiliations) (n a : ℕ) (j : Jid) {b i : ℕ} {e : Affiliation}
    → locate l n a j ≡ some (b, (i, e))
    → Located l j b i e
unfolding locate
locate-Located l zero a j h = cc
locate-Located l (suc n) a j {b} {i} {e} h =
    elim (Option-cases (affiliations_find_by_jid (list_at l a).entries j jid_node_host)) [
      | inl missing ↦ locate-Located l n (suc a) j (ground arith)
      | inr (node, found) ↦
          let list : a ≡ b = ground arith in
          let entry : ◌≡◌ {A = Option NodePtr}
              (affiliations_find_by_jid (list_at l a).entries j jid_node_host) (some (i, e)) =
            ground arith in
          located l j b i e (
            subst
              (λ c.
                ◌≡◌ {A = Option NodePtr}
                  (affiliations_find_by_jid (list_at l c).entries j jid_node_host) (some (i, e)))
              list entry)
    ]

pub locate-none :
    (l : Affiliations) (n a : ℕ) (j : Jid) → locate l n a j ≡ none → hits_from l n a j ≡ 0
unfolding locate affiliations_find_by_jid
locate-none l zero a j h = refl
locate-none l (suc n) a j h =
    ground (arith, find_from-none 0 (list_at l a).entries j, locate-none l n (suc a) j)
