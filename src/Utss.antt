-- ===== src/Utss.antt =====
-- utss.h: a doubly linked list with a count and a limit. The nodes stand in list order; the counter
-- is kept apart from them, as in the code.
use mukite.Common.{ℕ, ◌+◌, ◌-◌, List, [], ◌∷◌, ◌++◌, delete_at}

pub record Dls {ℓ} (A : Type ℓ) : Type ℓ where
  pub entries : List A
  pub size : ℕ
  pub max_size : ℕ

module _ {ℓ} {A : Type ℓ} where
  -- DLS_INIT: an empty list with a limit.
  abbrev pub dls_init : ℕ → Dls A
  dls_init limit = record { entries = []; size = 0; max_size = limit }

  -- DLS_PREPEND
  abbrev pub dls_prepend : Dls A → A → Dls A
  dls_prepend l x = record l { entries = x ∷ l.entries; size = l.size + 1 }

  -- DLS_APPEND
  abbrev pub dls_append : Dls A → A → Dls A
  dls_append l x = record l { entries = l.entries ++ (x ∷ []); size = l.size + 1 }

  -- DLS_DELETE of the node at an index.
  abbrev pub dls_delete : Dls A → ℕ → Dls A
  dls_delete l i = record l { entries = delete_at i l.entries; size = l.size - 1 }
