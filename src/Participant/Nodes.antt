-- ===== src/Participant/Nodes.antt =====
-- The nodes of a list of participants, under searches, writes and deletions.
use mukite.Common.{
  ℕ, zero, suc, ◌+◌, ◌≡◌, ◌≤◌, ◌<◌, ◌⊎◌, inl, inr, some, List, [], ◌∷◌, arith, delete_at, ◌==◌,
  Bool-cases,
}
use mukite.Buffer.{BufferPtr, contents, bpt_eq}
use mukite.Jid.{Jid, JidMode, jid_cmp}
use mukite.Participant.{Participant, find_by_jid, participants_find_by_nick, update, position}

-- The ids fall along the list, below a bound: each node has an address of its own.
abbrev pub Below : ℕ → List Participant → Type 0
Below n [] = Unit {0}
Below n (p ∷ ps) = (p.id < n) × Below p.id ps

-- The list holds this participant at its address.
abbrev pub Holds : Participant → List Participant → Type 0
Holds p [] = ⊥
Holds p (q ∷ ps) = (q ≡ p) ⊎ ((p.id < q.id) × Holds p ps)

pub Holds-lt :
    (p : Participant) (n : ℕ) (ps : List Participant) → Below n ps → Holds p ps → p.id < n
Holds-lt p n [] b h = absurd h
Holds-lt p n (q ∷ ps) b (inl e) = ground (arith, b.0)
Holds-lt p n (q ∷ ps) b (inr h) = omega (arith, b.0, h.0)

pub find_by_jid-Holds :
    (n : ℕ) (ps : List Participant) (j : Jid) (mode : JidMode) {p : Participant}
    → Below n ps
    → find_by_jid ps j mode ≡ some p
    → Holds p ps
unfolding find_by_jid
find_by_jid-Holds n [] j mode b e = cc
find_by_jid-Holds n (q ∷ ps) j mode {p} b e = elim (Bool-cases (jid_cmp q.jid j mode == 0)) [
  | inl here ↦ inl (ground arith)
  | inr later ↦
      let h : Holds p ps = find_by_jid-Holds q.id ps j mode b.1 (ground arith) in
      inr (Holds-lt p q.id ps b.1 h, h)
]

pub find_by_nick-Holds :
    (n : ℕ) (ps : List Participant) (nick : BufferPtr) {p : Participant}
    → Below n ps
    → participants_find_by_nick ps nick ≡ some p
    → Holds p ps
unfolding participants_find_by_nick
find_by_nick-Holds n [] nick b e = cc
find_by_nick-Holds n (q ∷ ps) nick {p} b e = elim (Bool-cases (bpt_eq (contents q.nick) nick)) [
  | inl here ↦ inl (ground arith)
  | inr later ↦
      let h : Holds p ps = find_by_nick-Holds q.id ps nick b.1 (ground arith) in
      inr (Holds-lt p q.id ps b.1 h, h)
]

-- The sum of a measure over the participants.
abbrev pub sum_of : (Participant → ℕ) → List Participant → ℕ
sum_of f [] = 0
sum_of f (p ∷ ps) = f p + sum_of f ps

-- Replacing a node replaces its share of the sum.
pub sum_of-update :
    (f : Participant → ℕ) (p q : Participant) (ps : List Participant)
    → Holds p ps
    → sum_of f (update p.id (λ _. q) ps) + f p ≡ sum_of f ps + f q
unfolding update
sum_of-update f p q [] h = absurd h
sum_of-update f p q (r ∷ ps) (inl e) = ground arith
sum_of-update f p q (r ∷ ps) (inr h) = ground (arith, h.0, sum_of-update f p q ps h.1)

-- Deleting a node takes its share off the sum.
pub sum_of-delete :
    (f : Participant → ℕ) (p : Participant) (ps : List Participant)
    → Holds p ps
    → sum_of f (delete_at (position p.id ps) ps) + f p ≡ sum_of f ps
unfolding position
sum_of-delete f p [] h = absurd h
sum_of-delete f p (r ∷ ps) (inl e) = ground arith
sum_of-delete f p (r ∷ ps) (inr h) = ground (arith, h.0, sum_of-delete f p ps h.1)

-- A written or deleted node leaves the addresses distinct.
pub update-Below :
    (n : ℕ) (p q : Participant) (ps : List Participant)
    → q.id ≡ p.id
    → Below n ps
    → Below n (update p.id (λ _. q) ps)
unfolding update
update-Below n p q [] e b = tt
update-Below n p q (r ∷ ps) e b = ground (arith, b.0, b.1, update-Below r.id p q ps e b.1)

pub Below-mono : (m n : ℕ) (ps : List Participant) → m ≤ n → Below m ps → Below n ps
Below-mono m n [] h b = tt
Below-mono m n (p ∷ ps) h b = (omega (arith, b.0), b.1)

pub delete-Below : (n i : ℕ) (ps : List Participant) → Below n ps → Below n (delete_at i ps)
delete-Below n zero [] b = tt
delete-Below n (suc i) [] b = tt
delete-Below n zero (p ∷ ps) b = Below-mono p.id n ps (omega (arith, b.0)) b.1
delete-Below n (suc i) (p ∷ ps) b = (b.0, delete-Below p.id i ps b.1)

-- After the write the node is held in its place.
pub update-Holds :
    (p q : Participant) (ps : List Participant)
    → q.id ≡ p.id
    → Holds p ps
    → Holds q (update p.id (λ _. q) ps)
unfolding update
update-Holds p q [] e h = absurd h
update-Holds p q (r ∷ ps) e (inl same) = ground arith
update-Holds p q (r ∷ ps) e (inr h) = ground (arith, h.0, update-Holds p q ps e h.1)
