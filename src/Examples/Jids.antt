-- ===== src/Examples/Jids.antt =====
-- jid.c and acl.c at concrete identifiers.
use mukite.Common.{◌≡◌, refl, ◌≤◌, ◌<◌, true, false, none, some, [], ◌∷◌, arith, lit, Bytes, length}
use mukite.Buffer.{bpt_size}
use mukite.Jid.{
  jid_struct, jid_str, jid_cmp, jid_full, jid_node_host, host_differs, max_jid_size,
  jid_full_nullwc,
}
use mukite.Jid.Parse.{jid_struct-jid_str, jid_str-jid_struct, jid_struct-fits, of_parts}
use mukite.Jid.Compare.{jid_cmp_congr}
use mukite.Acl.{acl_role, acl_deserialize}
use mukite.Acl.Lookup.{acl_role-host_entry}
use mukite.Acl.Load.{acl_deserialize_bounds, Hosted}
use mukite.Examples.Data.{
  cmp_runs, ann_node, host, phone, ann, ann_loud, bob, acl, boss_entry, host_entry,
}

abbrev ann_text : Bytes
ann_text = lit "ann@home.org/phone"

struct_ann : jid_struct (some ann_text) ≡ (ann, true)
unfolding jid_struct
struct_ann = refl

-- A slash ends the host wherever it stands, and later separators belong to the resource.
struct_late_at :
    jid_struct (some (lit "home.org/a@b/c"))
    ≡ (record { node = none; host = some host; resource = some (lit "a@b/c") }, true)
unfolding jid_struct
struct_late_at = refl

struct_no_host : (jid_struct (some (lit "ann@"))).1 ≡ false
unfolding jid_struct
struct_no_host = refl

cmp_ignores_case : jid_cmp ann ann_loud jid_full ≡ 0
unfolding cmp_runs
cmp_ignores_case = refl

cmp_other : jid_cmp ann bob jid_node_host ≡ 1
unfolding cmp_runs
cmp_other = refl

jid_struct-jid_str_example :
    jid_struct (some (jid_str (of_parts (some ann_node) host (some phone)))) ≡ (ann, true)
jid_struct-jid_str_example =
    jid_struct-jid_str (some ann_node) host (some phone) (omega arith) (omega arith) (ground arith)
      (omega arith) (ground arith, omega arith)

jid_str-jid_struct_example : jid_str (jid_struct (some ann_text)).0 ≡ ann_text
unfolding jid_struct
jid_str-jid_struct_example = jid_str-jid_struct ann_text (ground arith)

jid_struct-fits_example :
    let j = (jid_struct (some ann_text)).0 in
    (0 < bpt_size j.host) × (length (jid_str j) ≤ max_jid_size)
unfolding jid_struct
jid_struct-fits_example = jid_struct-fits (some ann_text) refl

jid_cmp_congr_example :
    (jid_cmp ann_loud ann jid_full ≡ 0)
    × (jid_cmp ann bob jid_full ≡ jid_cmp ann_loud bob jid_full)
    × (jid_cmp bob ann jid_full ≡ jid_cmp bob ann_loud jid_full)
jid_cmp_congr_example = jid_cmp_congr jid_full ann ann_loud bob refl cmp_ignores_case

role_bob : acl_role acl bob ≡ 1
unfolding acl_role cmp_runs
role_bob = refl

boss_other : jid_cmp boss_entry.jid bob jid_full_nullwc ≡ 1
unfolding cmp_runs
boss_other = refl

same_host : host_differs (some host) (some host) ≡ false
unfolding cmp_runs
same_host = refl

acl_role-host_entry_example : acl_role acl bob ≡ 1
acl_role-host_entry_example =
    acl_role-host_entry acl (boss_entry ∷ []) host_entry [] bob refl (ground (arith, boss_other))
      refl refl same_host

acl_deserialize_bounds_example :
    let es =
      (acl_deserialize acl (some (3, ann_text) ∷ some (1, lit "home.org") ∷ []) 5).0.entries in
    (length es ≡ 2) × (length es ≤ 5) × Hosted es
unfolding acl_deserialize jid_struct
acl_deserialize_bounds_example =
    acl_deserialize_bounds acl (some (3, ann_text) ∷ some (1, lit "home.org") ∷ []) 5 refl
