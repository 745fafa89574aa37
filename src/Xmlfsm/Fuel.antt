-- ===== src/Xmlfsm/Fuel.antt =====
-- The fuel of the loops of xmlfsm.c.
use mukite.Common.{
  Meets, bind-Meets, map-Meets, Terminates, ℕ, zero, suc, ◌+◌, ◌≤◌, ◌<◌, Bool, Bool-cases, true,
  false, not, inl, inr, none, some, [], ◌∷◌, arith, length, length-drop, drop, ◌==◌, ◌&&◌, Outcome,
  ok, ◌>>=◌, Bytes, bytes_eq,
}
use mukite.Xmlfsm.{
  read, skip_while, skip, attr_at, AttrState, parse_success, node_empty, node_noattr,
  xmlfsm_next_attr, skip_attrs, xmlfsm_skip_attrs, skipto_attr, xmlfsm_skipto_attr, slice,
  whitespace, is_quote,
}

-- Between two positions, and within the block.
abbrev pub Within : Bytes → ℕ → ℕ → Type 0
Within mem p r = (p ≤ r) × (r < length mem)

skip_while-Meets :
    (test : ℕ → Bool) (rest : Bytes) (p : ℕ)
    → Meets (λ r. (p ≤ r) × (r < p + length rest)) (skip_while test rest p)
unfolding skip_while
skip_while-Meets test [] p = tt
skip_while-Meets test (c ∷ rest) p = elim (Bool-cases (test c)) [
  | inl again ↦ rw again (
      map-Meets _ _ (skip_while test rest (suc p)) (λ r h. omega (arith, h))
        (skip_while-Meets test rest (suc p)))
  | inr stops ↦ rw stops (omega arith, omega arith)
]

pub skip-Within : (mem : Bytes) (test : ℕ → Bool) (p : ℕ) → Meets (Within mem p) (skip mem test p)
skip-Within mem test p =
    map-Meets _ _ (skip mem test p) (λ r h. omega (arith, h, length-drop p mem))
      (skip_while-Meets test (drop p mem) p)

read-Terminates : (mem : Bytes) (p : ℕ) → Terminates (read mem p)
unfolding read
read-Terminates [] p = tt
read-Terminates (c ∷ mem) zero = tt
read-Terminates (c ∷ mem) (suc p) = read-Terminates mem p

-- An attribute ends behind the position it is looked for at, and within the block.
abbrev pub Advanced : Bytes → ℕ → AttrState × ℕ → Type 0
Advanced mem p (parse_success attr, q) = (p < q) × (q ≤ length mem)
Advanced mem p (node_empty, q) = Unit {0}
Advanced mem p (node_noattr, q) = Unit {0}

-- A chain that starts with a search for a byte.
pub skip-then :
    {B : Type 0} (P : B → Type 0) (mem : Bytes) (test : ℕ → Bool) (p : ℕ) (k : ℕ → Outcome B)
    → ((r : ℕ) → Within mem p r → Meets P (k r))
    → Meets P (skip mem test p >>= k)
skip-then P mem test p k h =
    bind-Meets (Within mem p) P (skip mem test p) k (skip-Within mem test p) h

attr_at-Advanced :
    (mem : Bytes) (first p : ℕ) → p ≤ first → Meets (Advanced mem p) (attr_at mem first)
unfolding attr_at
attr_at-Advanced mem first p h =
    skip-then (Advanced mem p) mem (λ d. not (whitespace d) && not (d == b'=')) first _
      (λ stop s.
        skip-then (Advanced mem p) mem (λ d. not (is_quote d)) stop _
          (λ open_quote o.
            bind-Meets (λ c. Unit {0}) (Advanced mem p) (read mem open_quote) _
              (read-Terminates mem open_quote)
              (λ quote r.
                skip-then (Advanced mem p) mem (λ d. not (d == quote)) (open_quote + 1) _
                  (λ close c. (omega (arith, h, s, o, c), omega (arith, c))))))

pub next_attr-Advanced : (mem : Bytes) (p : ℕ) → Meets (Advanced mem p) (xmlfsm_next_attr mem p)
unfolding xmlfsm_next_attr
next_attr-Advanced mem p = skip-then (Advanced mem p) mem whitespace p _ (λ first f.
    bind-Meets (λ c. Unit {0}) (Advanced mem p) (read mem first) _ (read-Terminates mem first)
      (λ c r. elim (Bool-cases (c == b'/')) [
        | inl slash ↦ rw slash tt
        | inr other ↦ rw other (elim (Bool-cases (c == b'>')) [
          | inl close ↦ rw close tt
          | inr name ↦ rw name (attr_at-Advanced mem first p f.0)
        ])
      ]))

-- What `skip_attrs` does with the state of `xmlfsm_next_attr`.
attrs-Terminates :
    (fuel : ℕ) (mem : Bytes) (p : ℕ)
    → ((q : ℕ) → p < q → q ≤ length mem → Terminates (skip_attrs fuel mem q))
    → (r : AttrState × ℕ) → Advanced mem p r
    → Terminates (elim r.0 [
      | parse_success attr ↦ skip_attrs fuel mem r.1
      | node_empty ↦ ok (false, r.1)
      | node_noattr ↦ ok (true, r.1)
    ])
attrs-Terminates fuel mem p again (parse_success attr, q) a = again q a.0 a.1
attrs-Terminates fuel mem p again (node_empty, q) a = tt
attrs-Terminates fuel mem p again (node_noattr, q) a = tt

skip_attrs-Terminates :
    (fuel : ℕ) (mem : Bytes) (p : ℕ)
    → length mem < fuel + p
    → 0 < fuel
    → Terminates (skip_attrs fuel mem p)
unfolding skip_attrs
skip_attrs-Terminates zero mem p h pos = absurd (omega arith)
skip_attrs-Terminates (suc fuel) mem p h pos =
    bind-Meets (Advanced mem p) (λ r. Unit {0}) (xmlfsm_next_attr mem p) _
      (next_attr-Advanced mem p)
      (attrs-Terminates fuel mem p (λ q further fits.
        skip_attrs-Terminates fuel mem q (omega (arith, h, further))
          (omega (arith, h, further, fits))))

pub xmlfsm_skip_attrs-Terminates : (mem : Bytes) (p : ℕ) → Terminates (xmlfsm_skip_attrs mem p)
unfolding xmlfsm_skip_attrs
xmlfsm_skip_attrs-Terminates mem p =
    skip_attrs-Terminates (length mem + 1) mem p (omega arith) (omega arith)

named-Terminates :
    (fuel : ℕ) (name mem : Bytes) (p : ℕ)
    → ((q : ℕ) → p < q → q ≤ length mem → Terminates (skipto_attr fuel name mem q))
    → (r : AttrState × ℕ) → Advanced mem p r
    → Terminates (elim r.0 [
      | parse_success attr ↦ elim (bytes_eq name (slice mem attr.name)) [
        | true ↦ ok (some attr, r.1)
        | false ↦ skipto_attr fuel name mem r.1
      ]
      | node_empty ↦ ok (none, r.1)
      | node_noattr ↦ ok (none, r.1)
    ])
named-Terminates fuel name mem p again (parse_success attr, q) a =
    elim (Bool-cases (bytes_eq name (slice mem attr.name))) [
      | inl found ↦ rw found tt
      | inr other ↦ rw other (again q a.0 a.1)
    ]
named-Terminates fuel name mem p again (node_empty, q) a = tt
named-Terminates fuel name mem p again (node_noattr, q) a = tt

skipto_attr-Terminates :
    (fuel : ℕ) (name mem : Bytes) (p : ℕ)
    → length mem < fuel + p
    → 0 < fuel
    → Terminates (skipto_attr fuel name mem p)
unfolding skipto_attr
skipto_attr-Terminates zero name mem p h pos = absurd (omega arith)
skipto_attr-Terminates (suc fuel) name mem p h pos =
    bind-Meets (Advanced mem p) (λ r. Unit {0}) (xmlfsm_next_attr mem p) _
      (next_attr-Advanced mem p)
      (named-Terminates fuel name mem p (λ q further fits.
        skipto_attr-Terminates fuel name mem q (omega (arith, h, further))
          (omega (arith, h, further, fits))))

pub xmlfsm_skipto_attr-Terminates :
    (name mem : Bytes) (p : ℕ) → Terminates (xmlfsm_skipto_attr name mem p)
unfolding xmlfsm_skipto_attr
xmlfsm_skipto_attr-Terminates name mem p =
    skipto_attr-Terminates (length mem + 1) name mem p (omega arith) (omega arith)
