-- ===== src/Acl.antt =====
-- acl.h and acl.c: the access list, searched in file order.
pub mod Lookup
pub mod Load
use mukite.Common.{
  ℕ, zero, suc, Bool, true, false, Option, none, some, List, [], ◌∷◌, Bytes, ◌==◌, if◌then◌else◌,
}
use mukite.Jid.{Jid, jid_cmp, jid_struct, jid_full_nullwc}

-- The ranks of a user. A rank is compared by order only, so a number that no line below names is
-- a rank too.
abbrev pub acl_normal : ℕ
acl_normal = 0

abbrev pub acl_muc_create : ℕ
acl_muc_create = 1

abbrev pub acl_muc_persist : ℕ
acl_muc_persist = 2

abbrev pub acl_muc_admin : ℕ
acl_muc_admin = 3

abbrev pub acl_component_admin : ℕ
acl_component_admin = 4

pub record AclEntry : Type 0 where
  pub jid : Jid
  pub role : ℕ

pub record AclConfig : Type 0 where
  pub default_role : ℕ
  pub entries : List AclEntry

-- The loop of `acl_role`: the first entry that matches, or the rank given.
unfoldable pub role_in : ℕ → List AclEntry → Jid → ℕ
role_in default [] j = default
role_in default (e ∷ es) j =
    if jid_cmp e.jid j jid_full_nullwc == 0 then e.role else role_in default es j

unfoldable pub acl_role : AclConfig → Jid → ℕ
unfolding role_in
acl_role acl j = role_in acl.default_role acl.entries j

-- The loop of `acl_deserialize`, over what each call of `fscanf` reads before the file ends: a rank
-- and the rest of the line, or `none` where the line has another form. The result is the new list,
-- and whether the whole file was read.
unfoldable pub load_entries : ℕ → List (Option (ℕ × Bytes)) → List AclEntry × Bool
load_entries limit [] = ([], true)
load_entries zero (line ∷ lines) = ([], false)
load_entries (suc limit) (none ∷ lines) = ([], false)
load_entries (suc limit) (some (role, text) ∷ lines) =
    let (es, complete) = load_entries limit lines in
    if (jid_struct (some text)).1
    then (record { jid = (jid_struct (some text)).0; role = role } ∷ es, complete)
    else ([], false)

-- `acl_deserialize`: the old entries are dropped before the file is read.
unfoldable pub acl_deserialize : AclConfig → List (Option (ℕ × Bytes)) → ℕ → AclConfig × Bool
unfolding load_entries
acl_deserialize acl lines limit =
    let (es, complete) = load_entries limit lines in (record acl { entries = es }, complete)
