-- ===== src/Jid.antt =====
-- jid.h and jid.c: Jabber identifiers, node@host/resource.
pub mod Parse
pub mod Compare
use mukite.Common.{
  ℕ, zero, suc, ◌+◌, ◌*◌, Bool, true, false, not, ◌&&◌, ◌||◌, Option, none, some, List, [], ◌∷◌,
  ◌++◌, Bytes, ◌==◌, ltb, if◌then◌else◌, length, bytes_eq, case_eq,
}
use mukite.Buffer.{BufferPtr, contents, bpt_size, bpt_null, bpt_empty, bpt_blank}

pub record Jid : Type 0 where
  pub node : BufferPtr
  pub host : BufferPtr
  pub resource : BufferPtr

-- The mode word of a comparison, a flag for each of JID_NODE, JID_HOST, JID_RESOURCE and
-- JID_CMP_NULLWC.
pub record JidMode : Type 0 where
  pub node : Bool
  pub host : Bool
  pub resource : Bool
  pub nullwc : Bool

-- JID_FULL
abbrev pub jid_full : JidMode
jid_full = record { node = true; host = true; resource = true; nullwc = false }

-- JID_FULL | JID_CMP_NULLWC
abbrev pub jid_full_nullwc : JidMode
jid_full_nullwc = record jid_full { nullwc = true }

-- JID_NODE | JID_HOST
abbrev pub jid_node_host : JidMode
jid_node_host = record jid_full { resource = false }

-- JID_HOST
abbrev pub jid_host : JidMode
jid_host = record jid_node_host { node = false }

abbrev pub max_jid_part_size : ℕ
max_jid_part_size = 1023

abbrev pub max_jid_size : ℕ
max_jid_size = max_jid_part_size * 3 + 2

abbrev pub jid_init : Jid
jid_init = record { node = none; host = none; resource = none }

-- JID_EMPTY
abbrev pub jid_empty : Jid → Bool
jid_empty j = bpt_null j.host

-- The loop of `jid_struct` and the assignment after it. `at_node` says that `part` is JID_NODE, and
-- the bytes are those from `part_start` to `current` and those from `current` on.
unfoldable pub jid_split : Bool → Bytes → Jid → Bytes → Jid
jid_split at_node seen j [] = record j { host = some seen }
jid_split at_node seen j (c ∷ rest) =
    let from_host = jid_split false [] (record j { node = some seen }) rest in
    let further = jid_split at_node (seen ++ (c ∷ [])) j rest in
    if at_node && c == b'@'
    then from_host
    else if c == b'/'
    then record j { host = some seen; resource = some rest }
    else further

-- The parts that a null string is split into, or a string of bytes.
unfoldable pub jid_parts : BufferPtr → Jid
unfolding jid_split
jid_parts none = jid_init
jid_parts (some s) = jid_split true [] jid_init s

-- `jid_struct`: the identifier, and whether it is well formed.
unfoldable pub jid_struct : BufferPtr → Jid × Bool
unfolding jid_parts
jid_struct s =
    let j = jid_parts s in
    (
      j,
      not (
          bpt_blank j.host
          || (ltb max_jid_part_size (bpt_size j.host)
              || (ltb max_jid_part_size (bpt_size j.node)
                  || ltb max_jid_part_size (bpt_size j.resource)))),
    )

-- The node and its separator, and the separator and the resource.
unfoldable pub node_prefix : BufferPtr → Bytes
node_prefix none = []
node_prefix (some b) = b ++ (b'@' ∷ [])

unfoldable pub resource_suffix : BufferPtr → Bytes
resource_suffix p = if bpt_empty p then [] else b'/' ∷ contents p

-- The bytes from JID_STR on, JID_LEN many. The parts of an identifier stand in one block.
unfoldable pub jid_str : Jid → Bytes
unfolding node_prefix resource_suffix
jid_str j = node_prefix j.node ++ (contents j.host ++ resource_suffix j.resource)

-- One part of `jid_cmp`: null against not null, then the sizes, then the bytes.
unfoldable pub part_differs : (Bytes → Bytes → Bool) → BufferPtr → BufferPtr → Bool
part_differs same none none = false
part_differs same none (some b) = true
part_differs same (some a) none = true
part_differs same (some a) (some b) = not (length a == length b) || not (same a b)

-- `strncasecmp` over the first block's size.
abbrev pub case_same : Bytes → Bytes → Bool
case_same a b = case_eq (length a) a b

-- The host is compared with no test for null.
unfoldable pub host_differs : BufferPtr → BufferPtr → Bool
host_differs a b =
    not (bpt_size a == bpt_size b) || not (case_eq (bpt_size a) (contents a) (contents b))

-- `jid_cmp`: 0 if the parts that the mode names agree, 1 otherwise.
unfoldable pub jid_cmp : Jid → Jid → JidMode → ℕ
jid_cmp a b mode =
    if (mode.node && (not (bpt_null a.node) || not mode.nullwc))
      && part_differs case_same a.node b.node
    then 1
    else if mode.host && host_differs a.host b.host
    then 1
    else if (mode.resource && (not (bpt_null a.resource) || not mode.nullwc))
        && part_differs bytes_eq a.resource b.resource
    then 1
    else 0

-- Whether `jid_set` copies a part: the parts mask names it, and it is not empty.
unfoldable pub copied_part : Bool → BufferPtr → BufferPtr
copied_part wanted p = if wanted && not (bpt_empty p) then some (contents p) else none

-- `jid_set`: the copy of a source under a mask of parts. The host is always copied.
unfoldable pub jid_set : Jid → JidMode → Jid
unfolding copied_part
jid_set src parts = record {
  node = copied_part parts.node src.node;
  host = some (contents src.host);
  resource = copied_part parts.resource src.resource;
}
