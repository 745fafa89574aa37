-- ===== src/Affiliation.antt =====
-- affiliation.h, affiliation.c and affiliations.c: the five lists of a room's affiliations.
pub mod Cast
pub mod Each
pub mod Count
pub mod Add
pub mod Search
pub mod Owners
pub mod Sizes
use mukite.Common.{
  ℕ, zero, suc, ◌≡◌, Bool, true, false, not, ◌&&◌, ◌||◌, Option, none, some, List, [], ◌∷◌, Bytes,
  lit, ◌==◌, leb, if◌then◌else◌, length, Outcome, ok, fault, null_pointer, wild_pointer, ◌>>=◌,
}
use mukite.Buffer.{BufferPtr, bpt_null, bpt_eq, bpt_setter}
use mukite.Utss.{Dls, dls_append, dls_delete}
use mukite.Jid.{Jid, JidMode, jid_init, jid_cmp, jid_set, jid_host, jid_node_host}
use mukite.Acl.{AclConfig, acl_role, acl_muc_admin}
use mukite.Participant.{Participant}

-- The values of an affiliation; AFFIL_UNCHANGED (-2) is the `none` of an option.
abbrev pub affil_outcast : ℕ
affil_outcast = 0

abbrev pub affil_none : ℕ
affil_none = 1

abbrev pub affil_member : ℕ
affil_member = 2

abbrev pub affil_admin : ℕ
affil_admin = 3

abbrev pub affil_owner : ℕ
affil_owner = 4

abbrev pub max_affiliation_reason_size : ℕ
max_affiliation_reason_size = 65000

pub record Affiliation : Type 0 where
  pub jid : Jid
  pub reason_node : BufferPtr

abbrev pub affiliation_init : Affiliation
affiliation_init = record { jid = jid_init; reason_node = none }

-- `affiliation_set_reason`
unfoldable pub affiliation_set_reason : Affiliation → BufferPtr → Affiliation × Bool
unfolding bpt_setter
affiliation_set_reason a reason =
    let (value, done) = bpt_setter a.reason_node reason max_affiliation_reason_size in
    (record a { reason_node = value }, done)

abbrev pub AffiliationsList : Type 0
AffiliationsList = Dls Affiliation

-- `AffiliationsList affiliations[5]`, indexed by the affiliation.
pub record Affiliations : Type 0 where
  pub outcasts : AffiliationsList
  pub nones : AffiliationsList
  pub members : AffiliationsList
  pub admins : AffiliationsList
  pub owners : AffiliationsList

abbrev pub list_at : Affiliations → ℕ → AffiliationsList
list_at l zero = l.outcasts
list_at l (suc zero) = l.nones
list_at l (suc (suc zero)) = l.members
list_at l (suc (suc (suc zero))) = l.admins
list_at l (suc (suc (suc (suc n)))) = l.owners

abbrev pub set_list : Affiliations → ℕ → AffiliationsList → Affiliations
set_list l zero x = record l { outcasts = x }
set_list l (suc zero) x = record l { nones = x }
set_list l (suc (suc zero)) x = record l { members = x }
set_list l (suc (suc (suc zero))) x = record l { admins = x }
set_list l (suc (suc (suc (suc n)))) x = record l { owners = x }

-- A pointer to a node of a list: its position, and the node.
abbrev pub NodePtr : Type 0
NodePtr = ℕ × Affiliation

unfoldable pub find_from : ℕ → List Affiliation → Jid → JidMode → Option NodePtr
find_from i [] j mode = none
find_from i (a ∷ as') j mode =
    if jid_cmp a.jid j mode == 0 then some (i, a) else find_from (suc i) as' j mode

-- `affiliations_find_by_jid`
unfoldable pub affiliations_find_by_jid : List Affiliation → Jid → JidMode → Option NodePtr
unfolding find_from
affiliations_find_by_jid es j mode = find_from 0 es j mode

-- What an element of an `AffiliationsList **` may point at: a list; nothing; an `Affiliation`, whose
-- first word is its JID's `node.data`; or no object.
pub data ListPtr : Type 0 where
  to_list : AffiliationsList → ListPtr
  null : ListPtr
  to_entry : Affiliation → ListPtr
  wild : ListPtr

-- `list->head`, followed to the nodes. Bytes of a node name are no `Affiliation`.
unfoldable pub head_of : ListPtr → Outcome (List Affiliation)
head_of (to_list l) = ok l.entries
head_of null = fault null_pointer
head_of (to_entry a) = if bpt_null a.jid.node then ok [] else fault wild_pointer
head_of wild = fault wild_pointer

-- `(AffiliationsList **)room->affiliations`: the words of the five lists read as pointers. A list is
-- the word `head`, followed by a word that holds `size` and `max_size`; the loops read five words.
abbrev pub head_word : List Affiliation → ListPtr
head_word [] = null
head_word (a ∷ as') = to_entry a

abbrev pub size_word : AffiliationsList → ListPtr
size_word l = if l.size == 0 && l.max_size == 0 then null else wild

abbrev pub affiliations_by_cast : Affiliations → List ListPtr
affiliations_by_cast l =
    head_word l.outcasts.entries
    ∷ size_word l.outcasts
    ∷ head_word l.nones.entries
    ∷ size_word l.nones
    ∷ head_word l.members.entries
    ∷ []

-- One of the two loops of `affiliationss_get_by_jid`, from the affiliation `a` on.
unfoldable pub search_lists : List ListPtr → ℕ → Jid → JidMode → Outcome (Option ℕ)
search_lists [] a j mode = ok none
search_lists (p ∷ ps) a j mode = do
  es ← head_of p
  elim (affiliations_find_by_jid es j mode) [
    | some node ↦ ok (some a)
    | none ↦ search_lists ps (suc a) j mode
  ]

-- `affiliationss_get_by_jid`
unfoldable pub affiliationss_get_by_jid : List ListPtr → AclConfig → Jid → Outcome ℕ
affiliationss_get_by_jid lists acl j =
    if leb acl_muc_admin (acl_role acl j) then ok affil_owner else do
      full ← search_lists lists affil_outcast j jid_node_host
      elim full [
        | some a ↦ ok a
        | none ↦ do
          host ← search_lists lists affil_outcast j jid_host
          elim host [ some a ↦ ok a | none ↦ ok affil_none ]
      ]

-- The loop of `affiliationss_add` that looks for an entry: the list it stands in, and the node.
unfoldable pub locate : Affiliations → ℕ → ℕ → Jid → Option (ℕ × NodePtr)
locate l zero a j = none
locate l (suc n) a j = elim (affiliations_find_by_jid (list_at l a).entries j jid_node_host) [
  | some node ↦ some (a, node)
  | none ↦ locate l n (suc a) j
]

-- `sender && sender->affiliation != AFFIL_OWNER`
abbrev pub not_owner : Option Participant → Bool
not_owner none = false
not_owner (some p) = not (p.affiliation == affil_owner)

-- `sender && jid_cmp(&sender->jid, jid, JID_NODE | JID_HOST) == 0`
abbrev pub is_sender : Option Participant → Jid → Bool
is_sender none j = false
is_sender (some p) j = jid_cmp p.jid j jid_node_host == 0

-- The tail of `affiliationss_add`: the entry, a fresh one or the one taken off its list, is filled
-- and appended, unless the affiliation is AFFIL_NONE.
unfoldable pub put_entry : Affiliations → Affiliation → ℕ → Jid → BufferPtr → Affiliations
unfolding affiliation_set_reason
put_entry l entry affiliation j reason =
    if affiliation == affil_none
    then l
    else set_list l affiliation (
        dls_append (list_at l affiliation)
          (affiliation_set_reason (record entry { jid = jid_set j jid_node_host }) reason).0)

-- `affiliationss_add`: the lists, and the function's result. `sender` is null where the room itself
-- gives the affiliation.
unfoldable pub affiliationss_add :
    Affiliations → Option Participant → ℕ → Jid → BufferPtr → Affiliations × Bool
affiliationss_add l sender affiliation j reason =
    if not_owner sender && leb affil_admin affiliation
    then (l, false)
    else elim (locate l 5 affil_outcast j) [
      | none ↦ (put_entry l affiliation_init affiliation j reason, true)
      | some (list, (i, entry)) ↦
          if not_owner sender && leb affil_admin list
          then (l, false)
          else if list == affil_owner
              && (is_sender sender entry.jid && (i == 0 && length l.owners.entries == 1))
          then (l, false)
          else (
            put_entry (set_list l list (dls_delete (list_at l list) i)) entry affiliation j reason,
            true,
          )
    ]

-- `affiliation_by_name`
unfoldable pub affiliation_by_name : BufferPtr → Option ℕ
affiliation_by_name name =
    if bpt_eq (lit "outcast") name
    then some affil_outcast
    else if bpt_eq (lit "none") name
    then some affil_none
    else if bpt_eq (lit "member") name
    then some affil_member
    else if bpt_eq (lit "admin") name
    then some affil_admin
    else if bpt_eq (lit "owner") name
    then some affil_owner
    else none
