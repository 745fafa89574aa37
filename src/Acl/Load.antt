-- ===== src/Acl/Load.antt =====
-- Reading the access list from its file.
use mukite.Common.{
  ℕ, zero, suc, ◌≡◌, refl, ◌≤◌, ◌<◌, true, Option, none, some, List, [], ◌∷◌, arith, Bytes, length,
}
use mukite.Buffer.{bpt_size}
use mukite.Jid.Parse.{jid_struct-fits}
use mukite.Acl.{AclEntry, AclConfig, load_entries, acl_deserialize}

-- Every entry names a host.
abbrev pub Hosted : List AclEntry → Type 0
Hosted [] = Unit {0}
Hosted (e ∷ es) = (0 < bpt_size e.jid.host) × Hosted es

pub load-Hosted :
    (limit : ℕ) (lines : List (Option (ℕ × Bytes))) → Hosted (load_entries limit lines).0
unfolding load_entries
load-Hosted limit [] = tt
load-Hosted zero (line ∷ lines) = tt
load-Hosted (suc limit) (none ∷ lines) = tt
load-Hosted (suc limit) (some (role, text) ∷ lines) =
    ground (arith, load-Hosted limit lines, jid_struct-fits (some text))

load-le :
    (limit : ℕ) (lines : List (Option (ℕ × Bytes))) → length (load_entries limit lines).0 ≤ limit
unfolding load_entries
load-le limit [] = omega arith
load-le zero (line ∷ lines) = omega arith
load-le (suc limit) (none ∷ lines) = omega arith
load-le (suc limit) (some (role, text) ∷ lines) = ground (arith, load-le limit lines)

load_complete :
    (limit : ℕ) (lines : List (Option (ℕ × Bytes)))
    → (load_entries limit lines).1 ≡ true
    → length (load_entries limit lines).0 ≡ length lines
unfolding load_entries
load_complete limit [] h = refl
load_complete zero (line ∷ lines) h = ground arith
load_complete (suc limit) (none ∷ lines) h = ground arith
load_complete (suc limit) (some (role, text) ∷ lines) h = ground (arith, load_complete limit lines)

-- If the function reports success, the new list has an entry for each line of the file, at most `limit`
-- entries, and each names a host.
pub acl_deserialize_bounds :
    (acl : AclConfig) (lines : List (Option (ℕ × Bytes))) (limit : ℕ)
    → (acl_deserialize acl lines limit).1 ≡ true
    → let es = (acl_deserialize acl lines limit).0.entries in
      (length es ≡ length lines) × (length es ≤ limit) × Hosted es
unfolding acl_deserialize
acl_deserialize_bounds acl lines limit h =
    (load_complete limit lines h, load-le limit lines, load-Hosted limit lines)
