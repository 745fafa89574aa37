-- ===== src/Xmlfsm.antt =====
-- xmcomp/src/xmlfsm.h and xmlfsm.c: the scanner for stanzas. Every function takes the block of
-- memory that the stanza stands in; a pointer is a position there.
pub mod Fuel
pub mod Siblings
use mukite.Common.{
  ℕ, zero, suc, ◌+◌, ◌-◌, Bool, true, false, not, ◌&&◌, ◌||◌, Option, none, some, [], ◌∷◌, Bytes,
  ◌==◌, if◌then◌else◌, length, take, drop, bytes_eq, Outcome, ok, fault, wild_pointer, null_pointer,
  out_of_fuel, ◌>>=◌,
}

-- A `BufferPtr` into the block: `data` and `end`. A `Buffer` is written the same way.
pub record Span : Type 0 where
  pub start : ℕ
  pub stop : ℕ

pub record XmlAttr : Type 0 where
  pub name : Span
  pub value : Span

-- The bytes that a span covers.
abbrev pub slice : Bytes → Span → Bytes
slice mem s = take (s.stop - s.start) (drop s.start mem)

-- `*ptr`: a position outside of the block holds no byte.
unfoldable pub read : Bytes → ℕ → Outcome ℕ
read [] p = fault wild_pointer
read (c ∷ mem) zero = ok c
read (c ∷ mem) (suc p) = read mem p

-- WHITESPACE
unfoldable pub whitespace : ℕ → Bool
whitespace c = c == 32 || (c == 9 || (c == 10 || c == 13))

abbrev pub is_quote : ℕ → Bool
is_quote c = c == b'"' || c == 39

-- SKIP over the bytes from the position on: the first position whose byte fails the test.
unfoldable pub skip_while : (ℕ → Bool) → Bytes → ℕ → Outcome ℕ
skip_while test [] p = fault wild_pointer
skip_while test (c ∷ rest) p = if test c then skip_while test rest (suc p) else ok p

abbrev pub skip : Bytes → (ℕ → Bool) → ℕ → Outcome ℕ
skip mem test p = skip_while test (drop p mem) p

-- The variables of `xmlfsm_skip_node`. `nesting_level` is `opens - closes`, and may be negative;
-- `quote_char` 0 and a null `tag_closing_pos` are `none`.
pub record NodeState : Type 0 where
  pub opens : ℕ
  pub closes : ℕ
  pub quote : Option ℕ
  pub tag : Bool
  pub closing : Option ℕ

abbrev pub node_start_state : NodeState
node_start_state = record { opens = 0; closes = 0; quote = none; tag = false; closing = none }

-- What a byte does to the scanner: it goes on, or the node ends with this byte.
pub data Scan : Type 0 where
  more : NodeState → Scan
  complete : Scan

-- The tag ends, with `closes` levels closed so far.
unfoldable pub count_closed : NodeState → ℕ → Scan
count_closed s closes =
    if s.opens == closes
    then complete
    else more (record s { closes = closes; closing = none; tag = false })

-- `case '>'`: a slash right before it closes one level, a slash further back two.
unfoldable pub close_tag : ℕ → NodeState → Bool → Option ℕ → Scan
unfolding count_closed
close_tag p s true (some slash) =
    count_closed s (if p == slash + 1 then s.closes + 1 else s.closes + 2)
close_tag p s true none = more (record s { tag = false })
close_tag p s false closing = more (record s { tag = false })

-- The body of the loop of `xmlfsm_skip_node`, at a byte outside of quotes.
unfoldable pub scan_byte : ℕ → ℕ → NodeState → Scan
unfolding close_tag
scan_byte p c s =
    if c == b'<'
    then more (record s { opens = s.opens + 1; tag = true })
    else if c == b'/'
    then more (if s.tag then record s { closing = some p } else s)
    else if c == b'>'
    then close_tag p s s.tag s.closing
    else if is_quote c
    then more (record s { quote = some c })
    else more s

-- Within quotes `memchr` looks for the closing one.
unfoldable pub scan : ℕ → ℕ → NodeState → Option ℕ → Scan
unfolding scan_byte
scan p c s none = scan_byte p c s
scan p c s (some q) = more (if c == q then record s { quote = none } else s)

-- The loop over the bytes from the position `p` on, up to `stop`: the position behind the node, or
-- `none` if the node does not end before `stop`.
unfoldable pub scan_node : Bytes → ℕ → ℕ → NodeState → Outcome (Option ℕ)
unfolding scan
scan_node [] p stop s = if p == stop then ok none else fault wild_pointer
scan_node (c ∷ rest) p stop s = if p == stop then ok none else elim (scan p c s s.quote) [
  | complete ↦ ok (some (p + 1))
  | more s' ↦ scan_node rest (p + 1) stop s'
]

-- `xmlfsm_skip_node` with a null `real_buffer`: where `data` moves to. On failure it stays.
unfoldable pub xmlfsm_skip_node : Bytes → Span → Outcome (Option ℕ)
unfolding scan_node
xmlfsm_skip_node mem b = scan_node (drop b.start mem) b.start b.stop node_start_state

-- `xmlfsm_next_attr`: what it returns, with the position that `data` moves to.
pub data AttrState : Type 0 where
  parse_success : XmlAttr → AttrState
  node_empty node_noattr : AttrState

-- The name and the value of the attribute that starts at `first`.
unfoldable pub attr_at : Bytes → ℕ → Outcome (AttrState × ℕ)
unfolding skip_while read whitespace
attr_at mem first = do
  stop ← skip mem (λ d. not (whitespace d) && not (d == b'=')) first
  open_quote ← skip mem (λ d. not (is_quote d)) stop
  quote ← read mem open_quote
  close_quote ← skip mem (λ d. not (d == quote)) (open_quote + 1)
  ok (
    parse_success (record {
      name = record { start = first; stop = stop };
      value = record { start = open_quote + 1; stop = close_quote };
    }),
    close_quote + 1,
  )

unfoldable pub xmlfsm_next_attr : Bytes → ℕ → Outcome (AttrState × ℕ)
unfolding attr_at
xmlfsm_next_attr mem p = do
  first ← skip mem whitespace p
  c ← read mem first
  (if c == b'/'
      then ok (node_empty, first + 2)
      else if c == b'>'
      then ok (node_noattr, first + 1)
      else attr_at mem first)

-- `memchr(data, c, n)`
unfoldable pub memchr : ℕ → ℕ → Bytes → ℕ → Outcome (Option ℕ)
memchr c zero rest p = ok none
memchr c (suc n) [] p = fault wild_pointer
memchr c (suc n) (d ∷ rest) p = if d == c then ok (some p) else memchr c n rest (p + 1)

-- `xmlfsm_node_name`: the name, and the position that `data` moves to. Without a `<`, `data` is null
-- and is read through.
unfoldable pub xmlfsm_node_name : Bytes → Span → Outcome (Span × ℕ)
unfolding memchr skip_while whitespace
xmlfsm_node_name mem b = do
  found ← memchr b'<' (b.stop - b.start) (drop b.start mem) b.start
  elim found [
    | none ↦ fault null_pointer
    | some p ↦ do
      stop ← skip mem (λ d. not (whitespace d) && (not (d == b'>') && not (d == b'/'))) (p + 1)
      ok (record { start = p + 1; stop = stop }, stop)
  ]

-- `xmlfsm_skip_attrs`: whether the tag ended without a slash, and the position behind it. The fuel
-- bounds the number of attributes.
unfoldable pub skip_attrs : ℕ → Bytes → ℕ → Outcome (Bool × ℕ)
unfolding xmlfsm_next_attr
skip_attrs zero mem p = fault out_of_fuel
skip_attrs (suc fuel) mem p = do
  (state, q) ← xmlfsm_next_attr mem p
  elim state [
    | parse_success attr ↦ skip_attrs fuel mem q
    | node_empty ↦ ok (false, q)
    | node_noattr ↦ ok (true, q)
  ]

-- Every attribute takes three bytes at least, so the size of the block bounds their number.
unfoldable pub xmlfsm_skip_attrs : Bytes → ℕ → Outcome (Bool × ℕ)
unfolding skip_attrs
xmlfsm_skip_attrs mem p = skip_attrs (length mem + 1) mem p

-- `xmlfsm_skipto_attr`: the attribute of that name, if there is one, and where `data` moves to.
unfoldable pub skipto_attr : ℕ → Bytes → Bytes → ℕ → Outcome (Option XmlAttr × ℕ)
unfolding xmlfsm_next_attr
skipto_attr zero name mem p = fault out_of_fuel
skipto_attr (suc fuel) name mem p = do
  (state, q) ← xmlfsm_next_attr mem p
  elim state [
    | parse_success attr ↦ elim (bytes_eq name (slice mem attr.name)) [
      | true ↦ ok (some attr, q)
      | false ↦ skipto_attr fuel name mem q
    ]
    | node_empty ↦ ok (none, q)
    | node_noattr ↦ ok (none, q)
  ]

unfoldable pub xmlfsm_skipto_attr : Bytes → Bytes → ℕ → Outcome (Option XmlAttr × ℕ)
unfolding skipto_attr
xmlfsm_skipto_attr name mem p = skipto_attr (length mem + 1) name mem p

-- `XmlNodeTraverser` after `xmlfsm_next_sibling` found a node: what is left of `buffer`, `node`
-- behind its name, `node_name` and `node_start`.
pub record Node : Type 0 where
  pub buffer : Span
  pub node : Span
  pub node_name : Span
  pub node_start : ℕ

-- `xmlfsm_next_sibling`
unfoldable pub xmlfsm_next_sibling : Bytes → Span → Outcome (Option Node)
unfolding xmlfsm_skip_node xmlfsm_node_name
xmlfsm_next_sibling mem b = do
  skipped ← xmlfsm_skip_node mem b
  elim skipped [
    | none ↦ ok none
    | some p ↦ do
      (name, q) ← xmlfsm_node_name mem (record { start = b.start; stop = p })
      ok (
          some (record {
            buffer = record { start = p; stop = b.stop };
            node = record { start = q; stop = p };
            node_name = name;
            node_start = b.start;
          }))
  ]

-- `xmlfsm_skipto_node`: the first sibling of that name from its start to its end, and the position
-- behind it. Siblings follow one another, so the size of the block bounds their number.
unfoldable pub skipto_node : ℕ → Bytes → Bytes → Span → Outcome (Option (Span × ℕ))
unfolding xmlfsm_next_sibling
skipto_node zero name mem b = fault out_of_fuel
skipto_node (suc fuel) name mem b = do
  sibling ← xmlfsm_next_sibling mem b
  elim sibling [
    | none ↦ ok none
    | some n ↦ elim (bytes_eq name (slice mem n.node_name)) [
      | true ↦ ok (some (record { start = n.node_start; stop = n.node.stop }, n.buffer.start))
      | false ↦ skipto_node fuel name mem n.buffer
    ]
  ]

unfoldable pub xmlfsm_skipto_node : Bytes → Bytes → Span → Outcome (Option (Span × ℕ))
unfolding skipto_node
xmlfsm_skipto_node name mem b = skipto_node (length mem + 1) name mem b
