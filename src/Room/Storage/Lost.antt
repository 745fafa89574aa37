-- ===== src/Room/Storage/Lost.antt =====
-- The affiliations of a room that was not read from a file, when it is saved.
use mukite.Common.{
  ℕ, ◌≡◌, refl, ap, ◌∙◌, Option, some, List, [], ◌∷◌, ◌++◌, Bytes, ◌==◌, inl, inr, Bool-cases,
  Option-cases, arith,
}
use mukite.Buffer.{BufferPtr}
use mukite.Utss.{dls_init, dls_delete}
use mukite.Jid.{Jid}
use mukite.Participant.{Participant}
use mukite.Affiliation.{
  Affiliation, Affiliations, AffiliationsList, affiliationss_add, put_entry, locate, list_at,
  set_list, affiliation_init, affil_none, affil_outcast,
}
use mukite.Affiliation.Each.{Each, list_at-Each, set_list-Each}
use mukite.RoomState.{Room, no_affiliations}
use mukite.Room.Storage.{room_serialize, room_deserialize}
use mukite.Room.Storage.Restored.{
  RoomReadable, room_restored, affiliations_restored, room_deserialize-room_serialize,
}

abbrev LimitZero : AffiliationsList → Type 0
LimitZero l = l.max_size ≡ 0

-- The limits of the five lists are zero.
abbrev NoLimits : Affiliations → Type 0
NoLimits l = Each LimitZero l

put_entry-NoLimits :
    (l : Affiliations) (e : Affiliation) (a : ℕ) (j : Jid) (reason : BufferPtr)
    → NoLimits l
    → NoLimits (put_entry l e a j reason)
unfolding put_entry
put_entry-NoLimits l e a j reason v = elim (Bool-cases (a == affil_none)) [
  | inl is_none ↦ rw is_none v
  | inr other ↦ rw other (set_list-Each LimitZero l a _ v (list_at-Each LimitZero l a v))
]

affiliationss_add-NoLimits :
    (l : Affiliations) (sender : Option Participant) (a : ℕ) (j : Jid) (reason : BufferPtr)
    → NoLimits l
    → NoLimits (affiliationss_add l sender a j reason).0
unfolding affiliationss_add
affiliationss_add-NoLimits l sender a j reason v =
    elim (Option-cases (locate l 5 affil_outcast j)) [
      | inl missing ↦ ground (arith, put_entry-NoLimits l affiliation_init a j reason v)
      | inr ((b, (i, e)), found) ↦ ground (
        arith,
        put_entry-NoLimits (set_list l b (dls_delete (list_at l b) i)) e a j reason (
            set_list-Each LimitZero l b (dls_delete (list_at l b) i) v
              (list_at-Each LimitZero l b v)),
      )
    ]

-- The arguments of a call of `affiliationss_add`.
pub record Change : Type 0 where
  pub sender : Option Participant
  pub affiliation : ℕ
  pub jid : Jid
  pub reason : BufferPtr

-- The lists after these calls.
abbrev pub after_changes : Affiliations → List Change → Affiliations
after_changes l [] = l
after_changes l (c ∷ cs) =
    after_changes (affiliationss_add l c.sender c.affiliation c.jid c.reason).0 cs

after_changes-NoLimits :
    (l : Affiliations) (cs : List Change) → NoLimits l → NoLimits (after_changes l cs)
after_changes-NoLimits l [] v = v
after_changes-NoLimits l (c ∷ cs) v =
    after_changes-NoLimits (affiliationss_add l c.sender c.affiliation c.jid c.reason).0 cs
      (affiliationss_add-NoLimits l c.sender c.affiliation c.jid c.reason v)

no_affiliations-NoLimits : NoLimits no_affiliations
no_affiliations-NoLimits = record {
  outcasts = refl;
  nones = refl;
  members = refl;
  admins = refl;
  owners = refl;
}

-- The lists of a room read from a file that holds no affiliation.
abbrev pub all_lost : Affiliations
all_lost = record {
  outcasts = dls_init 10240;
  nones = dls_init 10240;
  members = dls_init 10240;
  admins = dls_init 10240;
  owners = dls_init 10240;
}

none_written : (l : AffiliationsList) → l.max_size ≡ 0 → affiliations_restored l ≡ dls_init 10240
none_written l e = rw e refl

restored_lists :
    (room : Room)
    → NoLimits room.affiliations
    → room_restored room ≡ record (room_restored room) { affiliations = all_lost }
restored_lists room v = simp (
  none_written room.affiliations.outcasts v.outcasts,
  none_written room.affiliations.members v.members,
  none_written room.affiliations.admins v.admins,
  none_written room.affiliations.owners v.owners,
)

-- A room whose affiliations were all given by `affiliationss_add` since `room_init` is saved without
-- any of them: what is read back is the room with five empty lists, its owners gone, if its other
-- parts are within what the readers take.
pub room_serialize-loses_affiliations :
    (room : Room) (changes : List Change) (rest : Bytes)
    → room.affiliations ≡ after_changes no_affiliations changes
    → RoomReadable room
    → room_deserialize (room_serialize room ++ rest)
      ≡ some (record (room_restored room) { affiliations = all_lost }, rest)
room_serialize-loses_affiliations room changes rest e v =
    let limits : NoLimits room.affiliations =
      rw e (after_changes-NoLimits no_affiliations changes no_affiliations-NoLimits) in
    room_deserialize-room_serialize room rest v
    ∙ ap (λ r. some (r, rest)) (restored_lists room limits)
