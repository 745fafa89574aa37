-- ===== src/Jid/Compare.antt =====
-- `jid_cmp` as a relation.
use mukite.Common.{
  ℕ, zero, suc, ◌≡◌, refl, subst, ◌≢◌, ◌⊎◌, Bool, true, false, none, some, [], ◌∷◌, arith, Bytes,
  length, ◌&&◌, case_eq, bytes_eq, bytes_eq_refl, bytes_eq→eq, to_lower-zero,
}
use mukite.Buffer.{BufferPtr, contents, bpt_size}
use mukite.Jid.{
  Jid, JidMode, jid_cmp, part_differs, host_differs, case_same, jid_set, copied_part, jid_node_host,
  jid_full,
}

pub case_eq_refl : (n : ℕ) (a : Bytes) → case_eq n a a ≡ true
unfolding case_eq
case_eq_refl zero a = refl
case_eq_refl (suc n) [] = refl
case_eq_refl (suc n) (x ∷ a) = ground (arith, case_eq_refl n a)

case_eq_symm :
    (a b : Bytes)
    → length a ≡ length b
    → case_eq (length a) a b ≡ true
    → case_eq (length b) b a ≡ true
unfolding case_eq
case_eq_symm [] [] e h = refl
case_eq_symm [] (y ∷ b) e h = absurd (omega arith)
case_eq_symm (x ∷ a) [] e h = absurd (omega arith)
case_eq_symm (x ∷ a) (y ∷ b) e h = ground (arith, to_lower-zero x y, case_eq_symm a b)

case_eq_trans :
    (a b c : Bytes)
    → length a ≡ length b
    → length b ≡ length c
    → case_eq (length a) a b ≡ true
    → case_eq (length b) b c ≡ true
    → case_eq (length a) a c ≡ true
unfolding case_eq
case_eq_trans [] b c e f h k = refl
case_eq_trans (x ∷ a) [] c e f h k = absurd (omega arith)
case_eq_trans (x ∷ a) (y ∷ b) [] e f h k = absurd (omega arith)
case_eq_trans (x ∷ a) (y ∷ b) (z ∷ c) e f h k =
    ground (arith, to_lower-zero x y, case_eq_trans a b c)

pub case_same_symm :
    (a b : Bytes) → length a ≡ length b → case_same a b ≡ true → case_same b a ≡ true
case_same_symm a b e h = case_eq_symm a b e h

-- What a comparison of equally long blocks needs, for `part_differs` to be an equivalence.
record IsSame (same : Bytes → Bytes → Bool) : Type 0 where
  rfl : (a : Bytes) → same a a ≡ true
  symm : (a b : Bytes) → length a ≡ length b → same a b ≡ true → same b a ≡ true
  trans :
      (a b c : Bytes)
      → length a ≡ length b
      → length b ≡ length c
      → same a b ≡ true
      → same b c ≡ true
      → same a c ≡ true

case_same-IsSame : IsSame case_same
case_same-IsSame = record {
  rfl = λ a. case_eq_refl (length a) a;
  symm = case_eq_symm;
  trans = case_eq_trans;
}

bytes_eq-IsSame : IsSame bytes_eq
bytes_eq-IsSame = record {
  rfl = bytes_eq_refl;
  symm = λ a b e h. subst (λ t. bytes_eq t a ≡ true) (bytes_eq→eq a b h) (bytes_eq_refl a);
  trans = λ a b c e f h k. subst (λ t. bytes_eq a t ≡ true) (bytes_eq→eq b c k) h;
}

module _ {same : Bytes → Bytes → Bool} (s : IsSame same) where
  part_refl : (p : BufferPtr) → part_differs same p p ≡ false
  unfolding part_differs
  part_refl none = refl
  part_refl (some a) = ground (arith, s.rfl a)

  part_symm : (p q : BufferPtr) → part_differs same p q ≡ false → part_differs same q p ≡ false
  unfolding part_differs
  part_symm none none h = refl
  part_symm none (some b) h = h
  part_symm (some a) none h = h
  part_symm (some a) (some b) h = ground (arith, s.symm a b)

  part_trans :
      (p q r : BufferPtr)
      → part_differs same p q ≡ false
      → part_differs same q r ≡ false
      → part_differs same p r ≡ false
  unfolding part_differs
  part_trans none none r h k = k
  part_trans none (some b) r h k = cc
  part_trans (some a) none r h k = cc
  part_trans (some a) (some b) none h k = cc
  part_trans (some a) (some b) (some c) h k = ground (arith, s.trans a b c)

host_refl : (p : BufferPtr) → host_differs p p ≡ false
unfolding host_differs
host_refl p = ground (arith, case_eq_refl (bpt_size p) (contents p))

host_symm : (p q : BufferPtr) → host_differs p q ≡ false → host_differs q p ≡ false
unfolding host_differs
host_symm p q h = ground (arith, case_eq_symm (contents p) (contents q))

host_trans :
    (p q r : BufferPtr)
    → host_differs p q ≡ false
    → host_differs q r ≡ false
    → host_differs p r ≡ false
unfolding host_differs
host_trans p q r h k = ground (arith, case_eq_trans (contents p) (contents q) (contents r))

-- What a comparison without wildcards looks at.
record Agree (a b : Jid) (mode : JidMode) : Type 0 where
  node : (mode.node && part_differs case_same a.node b.node) ≡ false
  host : (mode.host && host_differs a.host b.host) ≡ false
  resource : (mode.resource && part_differs bytes_eq a.resource b.resource) ≡ false

agree : (a b : Jid) (mode : JidMode) → mode.nullwc ≡ false → jid_cmp a b mode ≡ 0 → Agree a b mode
unfolding jid_cmp
agree a b mode w h = ground arith

of_Agree : (a b : Jid) (mode : JidMode) → Agree a b mode → jid_cmp a b mode ≡ 0
unfolding jid_cmp
of_Agree a b mode h = ground arith

module _ (mode : JidMode) (w : mode.nullwc ≡ false) where
  pub jid_cmp_refl : (a : Jid) → jid_cmp a a mode ≡ 0
  jid_cmp_refl a = of_Agree a a mode (
      ground (
        arith,
        part_refl case_same-IsSame a.node,
        host_refl a.host,
        part_refl bytes_eq-IsSame a.resource,
      ))

  pub jid_cmp_symm : (a b : Jid) → jid_cmp a b mode ≡ 0 → jid_cmp b a mode ≡ 0
  jid_cmp_symm a b h =
      let v = agree a b mode w h in
      of_Agree b a mode (
        ground (
          arith,
          v.node,
          v.host,
          v.resource,
          part_symm case_same-IsSame a.node b.node,
          host_symm a.host b.host,
          part_symm bytes_eq-IsSame a.resource b.resource,
        ))

  pub jid_cmp_trans :
      (a b c : Jid) → jid_cmp a b mode ≡ 0 → jid_cmp b c mode ≡ 0 → jid_cmp a c mode ≡ 0
  jid_cmp_trans a b c h k =
      let v = agree a b mode w h in
      let u = agree b c mode w k in
      of_Agree a c mode (
        ground (
          arith,
          v.node,
          v.host,
          v.resource,
          u.node,
          u.host,
          u.resource,
          part_trans case_same-IsSame a.node b.node c.node,
          host_trans a.host b.host c.host,
          part_trans bytes_eq-IsSame a.resource b.resource c.resource,
        ))

jid_cmp_cases : (a b : Jid) (mode : JidMode) → (jid_cmp a b mode ≡ 0) ⊎ (jid_cmp a b mode ≡ 1)
unfolding jid_cmp
jid_cmp_cases a b mode = ground arith

-- In a mode without wildcards, identifiers that agree in one order agree in the other, and each
-- compares with any third identifier, on either side, as the other does.
pub jid_cmp_congr :
    (mode : JidMode) (a b c : Jid)
    → mode.nullwc ≡ false
    → jid_cmp a b mode ≡ 0
    → (jid_cmp b a mode ≡ 0)
      × (jid_cmp a c mode ≡ jid_cmp b c mode)
      × (jid_cmp c a mode ≡ jid_cmp c b mode)
jid_cmp_congr mode a b c w h =
    let g = jid_cmp_symm mode w a b h in
    (
      g,
      ground (
        arith,
        jid_cmp_cases a c mode,
        jid_cmp_cases b c mode,
        jid_cmp_trans mode w a b c h,
        jid_cmp_trans mode w b a c g,
      ),
      ground (
        arith,
        jid_cmp_cases c a mode,
        jid_cmp_cases c b mode,
        jid_cmp_trans mode w c a b,
        jid_cmp_trans mode w c b a,
      ),
    )

-- The node is null or not empty.
abbrev pub NodeFilled : BufferPtr → Type 0
NodeFilled p = p ≢ some []

copied-filled : (p : BufferPtr) → NodeFilled p → copied_part true p ≡ p
unfolding copied_part
copied-filled none h = ground arith
copied-filled (some []) h = absurd (h refl)
copied-filled (some (x ∷ b)) h = ground arith

-- A copy of the node and the host agrees with its source there.
pub jid_cmp-jid_set :
    (j : Jid) → NodeFilled j.node → jid_cmp (jid_set j jid_node_host) j jid_node_host ≡ 0
unfolding jid_set host_differs
jid_cmp-jid_set j h = of_Agree _ j jid_node_host (
    ground (
      arith,
      copied-filled j.node h,
      part_refl case_same-IsSame j.node,
      case_eq_refl (bpt_size j.host) (contents j.host),
    ))

-- Identifiers that agree in full name the same account.
pub jid_cmp-full : (a b : Jid) → jid_cmp a b jid_full ≡ 0 → jid_cmp a b jid_node_host ≡ 0
unfolding jid_cmp
jid_cmp-full a b h = ground arith

-- A full copy agrees with its source, if neither the node nor the resource is an empty string.
pub jid_cmp-jid_set_full :
    (j : Jid)
    → NodeFilled j.node
    → NodeFilled j.resource
    → jid_cmp (jid_set j jid_full) j jid_full ≡ 0
unfolding jid_set host_differs
jid_cmp-jid_set_full j h r = of_Agree _ j jid_full (
    ground (
      arith,
      copied-filled j.node h,
      copied-filled j.resource r,
      part_refl case_same-IsSame j.node,
      part_refl bytes_eq-IsSame j.resource,
      case_eq_refl (bpt_size j.host) (contents j.host),
    ))
