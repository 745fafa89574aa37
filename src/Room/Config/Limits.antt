-- ===== src/Room/Config/Limits.antt =====
-- What the owner's form may change of a room.
use mukite.Common.{
  ◌∙◌, ℕ, ◌≡◌, refl, sym, subst, ◌≤◌, ◌<◌, ◌⊎◌, Bool-cases, inl, inr, List, arith, leb,
}
use mukite.Buffer.{BufferPtr, bpt_size, buffer_ptr_cpy, btoi}
use mukite.Acl.{acl_muc_persist}
use mukite.Participant.{Participant}
use mukite.Affiliation.{Affiliations}
use mukite.History.{HistoryEntriesList}
use mukite.Room.{
  Room, RoomFlags, role_visitor, role_participant, user_string_option_limit, participants_limit,
}
use mukite.Room.Config.{
  RoomOption, roomname, roomdesc, persistentroom, passwordprotectedroom, roomsecret, maxusers,
  members_by_default, set_option, set_flag, max_users, truth,
}

-- What no option names: the room's name, the occupants, the affiliations, the history and the subject.
pub record Untouched : Type 0 where
  pub node : BufferPtr
  pub entries : List Participant
  pub size : ℕ
  pub next_id : ℕ
  pub affiliations : Affiliations
  pub history : HistoryEntriesList
  pub subject_node : BufferPtr
  pub subject_nick : BufferPtr

abbrev pub untouched : Room → Untouched
untouched room = record {
  node = room.node;
  entries = room.participants.entries;
  size = room.participants.size;
  next_id = room.next_id;
  affiliations = room.affiliations;
  history = room.history;
  subject_node = room.subject_node;
  subject_nick = room.subject_nick;
}

-- The flags that no option names stay, and so does the one that needs a rank.
pub record FlagsKept (acl : ℕ) (before after : RoomFlags) : Type 0 where
  pub created : after.just_created ≡ before.just_created
  pub destroyed : after.destroyed ≡ before.destroyed
  pub logging : after.enable_logging ≡ before.enable_logging
  pub persistent : (acl_muc_persist ≤ acl) ⊎ (after.persistent_room ≡ before.persistent_room)

-- What is kept, and the bounds of what is set.
pub record Configured (acl : ℕ) (before after : Room) : Type 0 where
  pub same : untouched after ≡ untouched before
  pub flags : FlagsKept acl before.flags after.flags
  pub max_size :
      (after.participants.max_size ≡ before.participants.max_size)
      ⊎ ((0 < after.participants.max_size) × (after.participants.max_size ≤ participants_limit))
  pub default_role :
      (after.default_role ≡ before.default_role)
      ⊎ ((role_visitor ≤ after.default_role) × (after.default_role ≤ role_participant))
  pub title : (after.title ≡ before.title) ⊎ (bpt_size after.title ≤ user_string_option_limit)
  pub description :
      (after.description ≡ before.description)
      ⊎ (bpt_size after.description ≤ user_string_option_limit)

flags_same : (acl : ℕ) (f : RoomFlags) → FlagsKept acl f f
flags_same acl f = record {
  created = refl;
  destroyed = refl;
  logging = refl;
  persistent = inr refl;
}

pub unchanged : (acl : ℕ) (room : Room) → Configured acl room room
unchanged acl room = record {
  same = refl;
  flags = flags_same acl room.flags;
  max_size = inl refl;
  default_role = inl refl;
  title = inl refl;
  description = inl refl;
}

-- What holds of a value that one step keeps or bounds.
either_step :
    {A : Type 0} (x y z : A) (P : A → Type 0) → (z ≡ y) ⊎ P z → (y ≡ x) ⊎ P y → (z ≡ x) ⊎ P z
either_step x y z P (inr p) k = inr p
either_step x y z P (inl e) (inl k) = inl (e ∙ k)
either_step x y z P (inl e) (inr p) = inr (subst P (sym e) p)

persistent_step : {A : Type 0} (x y z : A) (H : Type 0) → H ⊎ (z ≡ y) → H ⊎ (y ≡ x) → H ⊎ (z ≡ x)
persistent_step x y z H (inl h) k = inl h
persistent_step x y z H (inr e) (inl h) = inl h
persistent_step x y z H (inr e) (inr k) = inr (e ∙ k)

pub composed :
    (acl : ℕ) (a b c : Room) → Configured acl a b → Configured acl b c → Configured acl a c
composed acl a b c p q = record {
  same = q.same ∙ p.same;
  flags = record {
    created = q.flags.created ∙ p.flags.created;
    destroyed = q.flags.destroyed ∙ p.flags.destroyed;
    logging = q.flags.logging ∙ p.flags.logging;
    persistent = persistent_step _ _ _ _ q.flags.persistent p.flags.persistent;
  };
  max_size = either_step _ _ _ (λ n. (0 < n) × (n ≤ participants_limit)) q.max_size p.max_size;
  default_role =
      either_step _ _ _ (λ n. (role_visitor ≤ n) × (n ≤ role_participant)) q.default_role
        p.default_role;
  title = either_step _ _ _ (λ b. bpt_size b ≤ user_string_option_limit) q.title p.title;
  description =
      either_step _ _ _ (λ b. bpt_size b ≤ user_string_option_limit) q.description p.description;
}

set_flag-FlagsKept :
    (f : RoomFlags) (option : RoomOption) (value : BufferPtr) (acl : ℕ)
    → FlagsKept acl f (set_flag f option value acl)
unfolding set_flag
set_flag-FlagsKept f persistentroom value acl = elim (Bool-cases (leb acl_muc_persist acl)) [
  | inl high ↦
      rw high (record {
        created = refl;
        destroyed = refl;
        logging = refl;
        persistent = inl (ground arith);
      })
  | inr low ↦
      rw low (record { created = refl; destroyed = refl; logging = refl; persistent = inr refl })
]
set_flag-FlagsKept f passwordprotectedroom value acl =
    elim (Bool-cases (leb (bpt_size value) user_string_option_limit)) [
      | inl fits ↦
          rw fits
            (record { created = refl; destroyed = refl; logging = refl; persistent = inr refl })
      | inr long ↦
          rw long
            (record { created = refl; destroyed = refl; logging = refl; persistent = inr refl })
    ]
set_flag-FlagsKept f _ value acl = (record {
  created = refl;
  destroyed = refl;
  logging = refl;
  persistent = inr refl;
})

-- A room with another title, description, limit, default role or flags.
with_strings :
    (acl : ℕ) (room : Room) (title description : BufferPtr)
    → (title ≡ room.title) ⊎ (bpt_size title ≤ user_string_option_limit)
    → (description ≡ room.description) ⊎ (bpt_size description ≤ user_string_option_limit)
    → Configured acl room (record room { title = title; description = description })
with_strings acl room title description t d = record {
  same = refl;
  flags = flags_same acl room.flags;
  max_size = inl refl;
  default_role = inl refl;
  title = t;
  description = d;
}

max_users_bounds : (n : ℕ) → (0 < max_users n) × (max_users n ≤ participants_limit)
unfolding max_users
max_users_bounds n = ground arith

pub set_option-Configured :
    (room : Room) (option : RoomOption) (value : BufferPtr) (acl : ℕ)
    → Configured acl room (set_option room option value acl)
unfolding set_option buffer_ptr_cpy
set_option-Configured room roomname value acl =
    elim (Bool-cases (leb (bpt_size value) user_string_option_limit)) [
      | inl fits ↦
          rw fits (with_strings acl room _ room.description (inr (ground arith)) (inl refl))
      | inr long ↦ rw long (unchanged acl room)
    ]
set_option-Configured room roomdesc value acl =
    elim (Bool-cases (leb (bpt_size value) user_string_option_limit)) [
      | inl fits ↦ rw fits (with_strings acl room room.title _ (inl refl) (inr (ground arith)))
      | inr long ↦ rw long (unchanged acl room)
    ]
set_option-Configured room roomsecret value acl = record {
  same = refl;
  flags = flags_same acl room.flags;
  max_size = inl refl;
  default_role = inl refl;
  title = inl refl;
  description = inl refl;
}
set_option-Configured room maxusers value acl = record {
  same = refl;
  flags = flags_same acl room.flags;
  max_size = inr (max_users_bounds (btoi value));
  default_role = inl refl;
  title = inl refl;
  description = inl refl;
}
set_option-Configured room members_by_default value acl = record {
  same = refl;
  flags = flags_same acl room.flags;
  max_size = inl refl;
  default_role = inr (elim (Bool-cases (truth value)) [
    | inl set ↦ rw set (omega arith, omega arith)
    | inr clear ↦ rw clear (omega arith, omega arith)
  ]);
  title = inl refl;
  description = inl refl;
}
set_option-Configured room option value acl = record {
  same = refl;
  flags = set_flag-FlagsKept room.flags option value acl;
  max_size = inl refl;
  default_role = inl refl;
  title = inl refl;
  description = inl refl;
}
