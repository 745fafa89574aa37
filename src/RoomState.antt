-- ===== src/RoomState.antt =====
-- room.h: the state of a room, its flags, roles and limits.
use mukite.Common.{ℕ, Bool, true, false}
use mukite.Buffer.{BufferPtr}
use mukite.Utss.{Dls, dls_init}
use mukite.Participant.{Participant}
use mukite.Affiliation.{Affiliations}
use mukite.History.{HistoryEntriesList}

-- The roles; ROLE_UNCHANGED (-2) is the `none` of an option.
abbrev pub role_none : ℕ
role_none = 0

abbrev pub role_visitor : ℕ
role_visitor = 1

abbrev pub role_participant : ℕ
role_participant = 2

abbrev pub role_moderator : ℕ
role_moderator = 3

abbrev pub user_string_option_limit : ℕ
user_string_option_limit = 8192

abbrev pub participants_limit : ℕ
participants_limit = 1024

abbrev pub reasonable_raw_limit : ℕ
reasonable_raw_limit = 1048576

-- The bits of `flags`, MUC_FLAG_ALLOWPM to MUC_FLAG_MEWCAT.
pub record RoomFlags : Type 0 where
  pub allow_pm : Bool
  pub change_subject : Bool
  pub enable_logging : Bool
  pub members_only : Bool
  pub moderated_room : Bool
  pub password_protected_room : Bool
  pub persistent_room : Bool
  pub public_room : Bool
  pub public_participants : Bool
  pub semi_anonymous : Bool
  pub iq_proxy : Bool
  pub invites : Bool
  pub visitors_pm : Bool
  pub visitor_presence : Bool
  pub just_created : Bool
  pub destroyed : Bool
  pub mewcat : Bool

-- MUC_FLAGS_DEFAULT
abbrev pub muc_flags_default : RoomFlags
muc_flags_default = record {
  allow_pm = true;
  change_subject = true;
  enable_logging = false;
  members_only = false;
  moderated_room = true;
  password_protected_room = false;
  persistent_room = false;
  public_room = true;
  public_participants = true;
  semi_anonymous = true;
  iq_proxy = true;
  invites = true;
  visitors_pm = false;
  visitor_presence = false;
  just_created = true;
  destroyed = false;
  mewcat = false;
}

abbrev pub ParticipantsList : Type 0
ParticipantsList = Dls Participant

-- `next_id` is the address of the next participant that is allocated.
pub record Room : Type 0 where
  pub node : BufferPtr
  pub title : BufferPtr
  pub description : BufferPtr
  pub password : BufferPtr
  pub flags : RoomFlags
  pub default_role : ℕ
  pub participants : ParticipantsList
  pub affiliations : Affiliations
  pub history : HistoryEntriesList
  pub subject_node : BufferPtr
  pub subject_nick : BufferPtr
  pub next_id : ℕ

abbrev pub no_affiliations : Affiliations
no_affiliations = record {
  outcasts = dls_init 0;
  nones = dls_init 0;
  members = dls_init 0;
  admins = dls_init 0;
  owners = dls_init 0;
}
