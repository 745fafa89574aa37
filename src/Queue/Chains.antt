-- ===== src/Queue/Chains.antt =====
-- Lists of blocks that are linked by their fields `next`.
use mukite.Common.{
  ℕ, ◌+◌, ◌≤◌, ◌<◌, ◌≡◌, refl, ◌∙◌, false, Option, none, some, List, [], ◌∷◌, ◌++◌, ◌==◌,
  if◌then◌else◌, arith,
}
use mukite.Queue.{set_next}

-- How often a block stands in a list.
abbrev pub tally : ℕ → List ℕ → ℕ
tally a [] = 0
tally a (x ∷ xs) = (if x == a then 1 else 0) + tally a xs

pub tally-append : (a : ℕ) (xs ys : List ℕ) → tally a (xs ++ ys) ≡ tally a xs + tally a ys
tally-append a [] ys = omega arith
tally-append a (x ∷ xs) ys = omega (arith, tally-append a xs ys)

-- From a pointer on, the fields lead through the blocks of the list, and then to null.
abbrev pub IsChain : (ℕ → Option ℕ) → Option ℕ → List ℕ → Type 0
IsChain next o [] = o ≡ none
IsChain next o (x ∷ xs) = (o ≡ some x) × IsChain next (next x) xs

abbrev pub last : List ℕ → Option ℕ
last [] = none
last (x ∷ []) = some x
last (x ∷ y ∷ xs) = last (y ∷ xs)

pub set_next-here : (next : ℕ → Option ℕ) (b : ℕ) (v : Option ℕ) → set_next next b v b ≡ v
unfolding set_next
set_next-here next b v = ground arith

pub set_next-there :
    (next : ℕ → Option ℕ) (b : ℕ) (v : Option ℕ) (a : ℕ)
    → (a == b) ≡ false
    → set_next next b v a ≡ next a
unfolding set_next
set_next-there next b v a h = rw h refl

-- A write to a block that is not in the list leaves the list.
pub IsChain-set_next :
    (next : ℕ → Option ℕ) (b : ℕ) (v o : Option ℕ) (xs : List ℕ)
    → tally b xs ≡ 0
    → IsChain next o xs
    → IsChain (set_next next b v) o xs
IsChain-set_next next b v o [] h c = c
IsChain-set_next next b v o (x ∷ xs) h c = (
  c.0,
  rw (set_next-there next b v x (ground arith))
      (IsChain-set_next next b v (next x) xs (ground arith) c.1),
)

pub tally-last : (e x : ℕ) (xs : List ℕ) → last (x ∷ xs) ≡ some e → 0 < tally e (x ∷ xs)
tally-last e x [] h = ground arith
tally-last e x (y ∷ xs) h = omega (arith, tally-last e y xs h)

-- Two writes to other blocks.
two-writes :
    (next : ℕ → Option ℕ) (b e x : ℕ)
    → (x == b) ≡ false
    → (x == e) ≡ false
    → set_next (set_next next b none) e (some b) x ≡ next x
two-writes next b e x hb he =
    set_next-there (set_next next b none) e (some b) x he ∙ set_next-there next b none x hb

-- A block is linked behind the last one of a list.
pub IsChain-snoc :
    (next : ℕ → Option ℕ) (b e : ℕ) (o : Option ℕ) (x : ℕ) (xs : List ℕ)
    → tally b (x ∷ xs) ≡ 0
    → tally e (x ∷ xs) ≤ 1
    → last (x ∷ xs) ≡ some e
    → IsChain next o (x ∷ xs)
    → IsChain (set_next (set_next next b none) e (some b)) o ((x ∷ xs) ++ (b ∷ []))
unfolding set_next
IsChain-snoc next b e o x [] fresh once h c = (c.0, (ground arith, ground arith))
IsChain-snoc next b e o x (y ∷ xs) fresh once h c = (
  c.0,
  rw (two-writes next b e x (ground arith) (ground (arith, tally-last e y xs h)))
      (IsChain-snoc next b e (next x) y xs (ground arith) (ground arith) h c.1),
)

pub last-snoc : (xs : List ℕ) (b : ℕ) → last (xs ++ (b ∷ [])) ≡ some b
last-snoc [] b = refl
last-snoc (x ∷ []) b = refl
last-snoc (x ∷ y ∷ xs) b = last-snoc (y ∷ xs) b
