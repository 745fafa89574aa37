-- ===== src/Jid/Parse.antt =====
-- `jid_struct` against `jid_str`.
use mukite.Common.{
  ℕ, ◌+◌, ◌*◌, ◌≤◌, ◌<◌, ◌≡◌, refl, sym, subst, ap, ◌∙◌, ◌≢◌, Bool, true, false, Option, none, some,
  [], ◌∷◌, ◌++◌, arith, Bytes, length, append_assoc, append-nil, length-append,
}
use mukite.Buffer.{BufferPtr, contents, bpt_size}
use mukite.Jid.{
  Jid, jid_init, jid_split, jid_parts, jid_struct, jid_str, node_prefix, resource_suffix,
  max_jid_part_size, max_jid_size,
}

-- No byte of the list is `c`.
abbrev pub Lacks : ℕ → Bytes → Type 0
Lacks c [] = Unit {0}
Lacks c (x ∷ xs) = (x ≢ c) × Lacks c xs

-- What may follow the host.
data Tail : Option Bytes → Bytes → Type 0 where
  no_resource : Tail none []
  with_resource : (r : Bytes) → Tail (some r) (b'/' ∷ r)

split_host :
    (seen h : Bytes) (j : Jid) {o : Option Bytes} {t : Bytes}
    → j.resource ≡ none
    → Lacks b'/' h
    → Tail o t
    → jid_split false seen j (h ++ t) ≡ record j { host = some (seen ++ h); resource = o }
unfolding jid_split
split_host seen [] j e l no_resource = ground (arith, append-nil seen)
split_host seen [] j e l (with_resource r) = ground (arith, append-nil seen)
split_host seen (c ∷ h) j {o} {t = t'} e l t =
    ground (arith, l.0, split_host (seen ++ (c ∷ [])) h j e l.1 t, append_assoc seen (c ∷ []) h)

-- The same with the parser still before an `@`, if the host holds none.
split_bare :
    (seen h : Bytes) (j : Jid) {o : Option Bytes} {t : Bytes}
    → j.resource ≡ none
    → Lacks b'@' h
    → Lacks b'/' h
    → Tail o t
    → jid_split true seen j (h ++ t) ≡ record j { host = some (seen ++ h); resource = o }
unfolding jid_split
split_bare seen [] j e l m no_resource = ground (arith, append-nil seen)
split_bare seen [] j e l m (with_resource r) = ground (arith, append-nil seen)
split_bare seen (c ∷ h) j {o} {t = t'} e l m t =
    ground
      (arith, l.0, m.0, split_bare (seen ++ (c ∷ [])) h j e l.1 m.1 t, append_assoc seen (c ∷ []) h)

split_node :
    (seen n : Bytes) (j : Jid) (rest : Bytes)
    → Lacks b'@' n
    → Lacks b'/' n
    → jid_split true seen j (n ++ (b'@' ∷ rest))
      ≡ jid_split false [] (record j { node = some (seen ++ n) }) rest
unfolding jid_split
split_node seen [] j rest l m = ground (arith, append-nil seen)
split_node seen (c ∷ n) j rest l m =
    ground (
      arith,
      l.0,
      m.0,
      split_node (seen ++ (c ∷ [])) n j rest l.1 m.1,
      append_assoc seen (c ∷ []) n,
    )

-- The node of an identifier with this host: null, with a host that holds no `@`, or free of
-- separators.
abbrev pub NodeReadable : BufferPtr → Bytes → Type 0
NodeReadable none host = Lacks b'@' host
NodeReadable (some n) host = Lacks b'@' n × Lacks b'/' n × (length n ≤ max_jid_part_size)

abbrev pub ResourceReadable : BufferPtr → Type 0
ResourceReadable none = Unit {0}
ResourceReadable (some r) = (r ≢ []) × (length r ≤ max_jid_part_size)

abbrev pub of_parts : BufferPtr → Bytes → BufferPtr → Jid
of_parts n h r = record { node = n; host = some h; resource = r }

suffix-Tail : (r : BufferPtr) → ResourceReadable r → Tail r (resource_suffix r)
unfolding resource_suffix
suffix-Tail none e = no_resource
suffix-Tail (some []) e = absurd (e.0 refl)
suffix-Tail (some (x ∷ r)) e =
    let kept : resource_suffix (some (x ∷ r)) ≡ b'/' ∷ x ∷ r = ground arith in
    subst (Tail (some (x ∷ r))) (sym kept) (with_resource (x ∷ r))

parts-jid_str :
    (n : BufferPtr) (h : Bytes) (r : BufferPtr)
    → NodeReadable n h
    → Lacks b'/' h
    → ResourceReadable r
    → jid_parts (some (jid_str (of_parts n h r))) ≡ of_parts n h r
unfolding jid_parts jid_str node_prefix
parts-jid_str none h r v l e = split_bare [] h jid_init refl v l (suffix-Tail r e)
parts-jid_str (some n) h r v l e =
    ap (λ t. jid_split true [] jid_init t) (append_assoc n (b'@' ∷ []) (h ++ resource_suffix r))
    ∙ split_node [] n jid_init (h ++ resource_suffix r) v.0 v.1
    ∙ split_host [] h (record jid_init { node = some n }) refl l (suffix-Tail r e)

node_fits : (n : BufferPtr) (h : Bytes) → NodeReadable n h → length (contents n) ≤ max_jid_part_size
node_fits none h v = omega arith
node_fits (some n) h v = v.2

resource_fits : (r : BufferPtr) → ResourceReadable r → length (contents r) ≤ max_jid_part_size
resource_fits none e = omega arith
resource_fits (some r) e = e.1

length-pos : (h : Bytes) → h ≢ [] → 0 < length h
length-pos [] ne = absurd (ne refl)
length-pos (x ∷ h) ne = omega arith

-- A printed identifier is parsed back into itself and accepted, if its parts are free of the
-- separators before them, its host is not empty, its resource is null or not empty, and no part is
-- longer than the limit.
pub jid_struct-jid_str :
    (n : BufferPtr) (h : Bytes) (r : BufferPtr)
    → NodeReadable n h
    → Lacks b'/' h
    → h ≢ []
    → length h ≤ max_jid_part_size
    → ResourceReadable r
    → jid_struct (some (jid_str (of_parts n h r))) ≡ (of_parts n h r, true)
unfolding jid_struct
jid_struct-jid_str n h r v l ne fits e =
    rw (parts-jid_str n h r v l e)
      (ground (arith, node_fits n h v, resource_fits r e, length-pos h ne))

jid_str-split :
    (at_node : Bool) (seen : Bytes) (j : Jid) (rest : Bytes)
    → j.resource ≡ none
    → (at_node ≡ true → j.node ≡ none)
    → (jid_split at_node seen j rest).resource ≢ some []
    → jid_str (jid_split at_node seen j rest) ≡ node_prefix j.node ++ (seen ++ rest)
unfolding jid_split jid_str node_prefix resource_suffix
jid_str-split at_node seen j [] e f ne = ground arith
jid_str-split at_node seen j (c ∷ rest) e f ne = ground (
  arith,
  jid_str-split false [] (record j { node = some seen }) rest e,
  jid_str-split at_node (seen ++ (c ∷ [])) j rest e f,
  append_assoc seen (c ∷ []) rest,
)

-- An identifier that was split off a string prints back as that string, unless the string ends in
-- a slash with nothing behind it.
pub jid_str-jid_struct :
    (s : Bytes) → (jid_struct (some s)).0.resource ≢ some [] → jid_str (jid_struct (some s)).0 ≡ s
unfolding jid_struct jid_parts node_prefix
jid_str-jid_struct s ne = jid_str-split true [] jid_init s refl (λ _. refl) ne

length-jid_str :
    (j : Jid)
    → bpt_size j.node ≤ max_jid_part_size
    → bpt_size j.host ≤ max_jid_part_size
    → bpt_size j.resource ≤ max_jid_part_size
    → length (jid_str j) ≤ max_jid_size
unfolding jid_str node_prefix resource_suffix
length-jid_str j = by_node j.node
  where
    back : Bytes
    back = contents j.host ++ resource_suffix j.resource

    back_fits :
        bpt_size j.host ≤ max_jid_part_size
        → bpt_size j.resource ≤ max_jid_part_size
        → length back ≤ max_jid_part_size * 2 + 1
    back_fits hh hr = ground (arith, length-append (contents j.host) (resource_suffix j.resource))

    by_node :
        (n : BufferPtr)
        → bpt_size n ≤ max_jid_part_size
        → bpt_size j.host ≤ max_jid_part_size
        → bpt_size j.resource ≤ max_jid_part_size
        → length (node_prefix n ++ back) ≤ max_jid_size
    by_node none hn hh hr = omega (arith, back_fits hh hr)
    by_node (some b) hn hh hr =
        omega (
          arith,
          length-append (b ++ (b'@' ∷ [])) back,
          length-append b (b'@' ∷ []),
          back_fits hh hr,
        )

-- An accepted identifier has a host that is neither null nor empty, and prints to at most
-- MAX_JID_SIZE bytes, the size that `jid_deserialize` reads and the ACL reader allocates.
pub jid_struct-fits :
    (s : BufferPtr)
    → (jid_struct s).1 ≡ true
    → let j = (jid_struct s).0 in (0 < bpt_size j.host) × (length (jid_str j) ≤ max_jid_size)
unfolding jid_struct
jid_struct-fits s h =
    (ground arith, length-jid_str (jid_parts s) (ground arith) (ground arith) (ground arith))
