-- ===== src/Xmlfsm/Siblings.antt =====
-- The fuel of the loops over sibling nodes of xmlfsm.c.
use mukite.Common.{
  Meets, bind-Meets, Terminates, ℕ, zero, suc, ◌+◌, ◌-◌, ◌≤◌, ◌<◌, Bool-cases, Option-cases, not,
  inl, inr, Option, none, some, [], ◌∷◌, arith, length, length-drop, drop, ◌==◌, ◌&&◌, Outcome, ok,
  ◌>>=◌, Bytes, bytes_eq,
}
use mukite.Xmlfsm.{
  Span, Node, NodeState, Scan, more, complete, scan, memchr, xmlfsm_node_name, scan_node,
  xmlfsm_skip_node, xmlfsm_next_sibling, skipto_node, xmlfsm_skipto_node, slice, whitespace,
}
use mukite.Xmlfsm.Fuel.{skip-then}

-- A node ends behind the position it starts at, and within the block.
abbrev pub Behind : Bytes → ℕ → Option ℕ → Type 0
Behind mem p none = Unit {0}
Behind mem p (some q) = (p < q) × (q ≤ length mem)

scan_node-Behind :
    (mem rest : Bytes) (p q stop : ℕ) (s : NodeState)
    → p ≤ q
    → length rest ≤ length mem - q
    → Meets (Behind mem p) (scan_node rest q stop s)
unfolding scan_node
scan_node-Behind mem [] p q stop s h fits = elim (Bool-cases (q == stop)) [
  | inl end ↦ rw end tt
  | inr out ↦ rw out tt
]
scan_node-Behind mem (c ∷ rest) p q stop s h fits = elim (Bool-cases (q == stop)) [
  | inl end ↦ rw end tt
  | inr inside ↦ rw inside (
      scanned (scan q c s s.quote) (λ s'.
        scan_node-Behind mem rest p (q + 1) stop s' (omega (arith, h)) (omega (arith, fits))))
]
  where
    scanned :
        (r : Scan)
        → ((s' : NodeState) → Meets (Behind mem p) (scan_node rest (q + 1) stop s'))
        → Meets
            (Behind mem p)
            (elim r [ complete ↦ ok (some (q + 1)) | more s' ↦ scan_node rest (q + 1) stop s' ])
    scanned complete again = (omega (arith, h), omega (arith, fits))
    scanned (more s') again = again s'

skip_node-Behind : (mem : Bytes) (b : Span) → Meets (Behind mem b.start) (xmlfsm_skip_node mem b)
unfolding xmlfsm_skip_node
skip_node-Behind mem b =
    scan_node-Behind mem (drop b.start mem) b.start b.start b.stop _ (omega arith)
      (omega (arith, length-drop b.start mem))

memchr-Terminates : (c n : ℕ) (rest : Bytes) (p : ℕ) → Terminates (memchr c n rest p)
unfolding memchr
memchr-Terminates c zero rest p = tt
memchr-Terminates c (suc n) [] p = tt
memchr-Terminates c (suc n) (d ∷ rest) p = elim (Bool-cases (d == c)) [
  | inl here ↦ rw here tt
  | inr other ↦ rw other (memchr-Terminates c n rest (p + 1))
]

pub node_name-Terminates : (mem : Bytes) (b : Span) → Terminates (xmlfsm_node_name mem b)
unfolding xmlfsm_node_name
node_name-Terminates mem b =
    bind-Meets (λ r. Unit {0}) (λ r. Unit {0})
      (memchr b'<' (b.stop - b.start) (drop b.start mem) b.start) _
      (memchr-Terminates b'<' (b.stop - b.start) (drop b.start mem) b.start)
      (λ found u. elim (Option-cases found) [
        | inl missing ↦ rw missing tt
        | inr (p, e) ↦ rw e (
            skip-then (λ r. Unit {0}) mem
              (λ d. not (whitespace d) && (not (d == b'>') && not (d == b'/'))) (p + 1) _
              (λ stop s. tt))
      ])

-- What is left of the siblings starts behind where they started.
abbrev pub Shorter : Bytes → Span → Option Node → Type 0
Shorter mem b none = Unit {0}
Shorter mem b (some n) = (b.start < n.buffer.start) × (n.buffer.start ≤ length mem)

pub next_sibling-Shorter :
    (mem : Bytes) (b : Span) → Meets (Shorter mem b) (xmlfsm_next_sibling mem b)
unfolding xmlfsm_next_sibling
next_sibling-Shorter mem b =
    bind-Meets (Behind mem b.start) (Shorter mem b) (xmlfsm_skip_node mem b) _
      (skip_node-Behind mem b) named
  where
    named :
        (skipped : Option ℕ)
        → Behind mem b.start skipped
        → Meets (Shorter mem b) (elim skipped [
          | none ↦ ok none
          | some p ↦ do
            (name, q) ← xmlfsm_node_name mem (record { start = b.start; stop = p })
            ok (
                some (record {
                  buffer = record { start = p; stop = b.stop };
                  node = record { start = q; stop = p };
                  node_name = name;
                  node_start = b.start;
                }))
        ])
    named none h = tt
    named (some p) h =
        bind-Meets (λ r. Unit {0}) (Shorter mem b)
          (xmlfsm_node_name mem (record { start = b.start; stop = p })) _
          (node_name-Terminates mem (record { start = b.start; stop = p })) (λ r u. h)

-- A loop over siblings that goes on behind each of them.
pub siblings-Meets :
    {B : Type 0} (P : B → Type 0) (mem : Bytes) (b : Span) (k : Option Node → Outcome B)
    → Meets P (k none)
    → ((n : Node) → b.start < n.buffer.start → n.buffer.start ≤ length mem → Meets P (k (some n)))
    → Meets P (xmlfsm_next_sibling mem b >>= k)
siblings-Meets P mem b k end again =
    bind-Meets (Shorter mem b) P (xmlfsm_next_sibling mem b) k (next_sibling-Shorter mem b) round
  where
    round : (found : Option Node) → Shorter mem b found → Meets P (k found)
    round none h = end
    round (some n) h = again n h.0 h.1

-- It ends, if every round does.
pub siblings-Terminates :
    {B : Type 0} (mem : Bytes) (b : Span) (k : Option Node → Outcome B)
    → Terminates (k none)
    → ((n : Node)
        → b.start < n.buffer.start
        → n.buffer.start ≤ length mem
        → Terminates (k (some n)))
    → Terminates (xmlfsm_next_sibling mem b >>= k)
siblings-Terminates = siblings-Meets (λ r. Unit {0})

skipto_node-Terminates :
    (fuel : ℕ) (name mem : Bytes) (b : Span)
    → length mem < fuel + b.start
    → 0 < fuel
    → Terminates (skipto_node fuel name mem b)
unfolding skipto_node
skipto_node-Terminates zero name mem b h pos = absurd (omega arith)
skipto_node-Terminates (suc fuel) name mem b h pos =
    siblings-Terminates mem b _ tt (λ n further fits.
      elim (Bool-cases (bytes_eq name (slice mem n.node_name))) [
        | inl found ↦ rw found tt
        | inr other ↦ rw other (
            skipto_node-Terminates fuel name mem n.buffer (omega (arith, h, further))
              (omega (arith, h, further, fits)))
      ])

pub xmlfsm_skipto_node-Terminates :
    (name mem : Bytes) (b : Span) → Terminates (xmlfsm_skipto_node name mem b)
unfolding xmlfsm_skipto_node
xmlfsm_skipto_node-Terminates name mem b =
    skipto_node-Terminates (length mem + 1) name mem b (omega arith) (omega arith)
