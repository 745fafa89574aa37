-- ===== src/Acl/Lookup.antt =====
-- Which entry of the access list decides.
use mukite.Common.{ℕ, ◌≡◌, refl, ◌≢◌, none, List, [], ◌∷◌, ◌++◌, arith, false}
use mukite.Jid.{Jid, jid_cmp, jid_full_nullwc, host_differs}
use mukite.Acl.{AclEntry, AclConfig, role_in, acl_role}

-- No entry of the list matches the identifier.
abbrev pub Unmatched : Jid → List AclEntry → Type 0
Unmatched j [] = Unit {0}
Unmatched j (e ∷ es) = (jid_cmp e.jid j jid_full_nullwc ≢ 0) × Unmatched j es

wildcard :
    (a b : Jid)
    → a.node ≡ none
    → a.resource ≡ none
    → host_differs a.host b.host ≡ false
    → jid_cmp a b jid_full_nullwc ≡ 0
unfolding jid_cmp
wildcard a b n r h = ground arith

first_match :
    (default : ℕ) (before : List AclEntry) (e : AclEntry) (after : List AclEntry) (j : Jid)
    → Unmatched j before
    → jid_cmp e.jid j jid_full_nullwc ≡ 0
    → role_in default (before ++ (e ∷ after)) j ≡ e.role
unfolding role_in
first_match default [] e after j u h = ground arith
first_match default (x ∷ before) e after j u h =
    ground (arith, u.0, first_match default before e after j u.1 h)

-- An entry that names a host alone decides the rank of every user of that host, with whatever node
-- and resource, unless an entry above it matches the user.
pub acl_role-host_entry :
    (acl : AclConfig) (before : List AclEntry) (e : AclEntry) (after : List AclEntry) (j : Jid)
    → acl.entries ≡ before ++ (e ∷ after)
    → Unmatched j before
    → e.jid.node ≡ none
    → e.jid.resource ≡ none
    → host_differs e.jid.host j.host ≡ false
    → acl_role acl j ≡ e.role
unfolding acl_role
acl_role-host_entry acl before e after j split u n r h =
    ground (arith, first_match acl.default_role before e after j u (wildcard e.jid j n r h))

unmatched :
    (default : ℕ) (es : List AclEntry) (j : Jid) → Unmatched j es → role_in default es j ≡ default
unfolding role_in
unmatched default [] j u = refl
unmatched default (e ∷ es) j u = ground (arith, u.0, unmatched default es j u.1)

-- A user whom no entry matches has the default rank.
pub acl_role-default :
    (acl : AclConfig) (j : Jid) → Unmatched j acl.entries → acl_role acl j ≡ acl.default_role
unfolding acl_role
acl_role-default acl j u = unmatched acl.default_role acl.entries j u
