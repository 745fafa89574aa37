-- ===== src/Affiliation/Each.antt =====
-- What holds of each of the five lists.
use mukite.Common.{ℕ, zero, suc}
use mukite.Affiliation.{Affiliations, AffiliationsList, list_at, set_list}

module _ (P : AffiliationsList → Type 0) where
  pub record Each (l : Affiliations) : Type 0 where
    pub outcasts : P l.outcasts
    pub nones : P l.nones
    pub members : P l.members
    pub admins : P l.admins
    pub owners : P l.owners

  pub list_at-Each : (l : Affiliations) (a : ℕ) → Each l → P (list_at l a)
  list_at-Each l zero v = v.outcasts
  list_at-Each l (suc zero) v = v.nones
  list_at-Each l (suc (suc zero)) v = v.members
  list_at-Each l (suc (suc (suc zero))) v = v.admins
  list_at-Each l (suc (suc (suc (suc n)))) v = v.owners

  pub set_list-Each :
      (l : Affiliations) (a : ℕ) (x : AffiliationsList) → Each l → P x → Each (set_list l a x)
  set_list-Each l zero x v e = record {
    outcasts = e;
    nones = v.nones;
    members = v.members;
    admins = v.admins;
    owners = v.owners;
  }
  set_list-Each l (suc zero) x v e = record {
    outcasts = v.outcasts;
    nones = e;
    members = v.members;
    admins = v.admins;
    owners = v.owners;
  }
  set_list-Each l (suc (suc zero)) x v e = record {
    outcasts = v.outcasts;
    nones = v.nones;
    members = e;
    admins = v.admins;
    owners = v.owners;
  }
  set_list-Each l (suc (suc (suc zero))) x v e = record {
    outcasts = v.outcasts;
    nones = v.nones;
    members = v.members;
    admins = e;
    owners = v.owners;
  }
  set_list-Each l (suc (suc (suc (suc n)))) x v e = record {
    outcasts = v.outcasts;
    nones = v.nones;
    members = v.members;
    admins = v.admins;
    owners = e;
  }
