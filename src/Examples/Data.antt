-- ===== src/Examples/Data.antt =====
-- The identifiers and lists that the examples share.
use mukite.Common.{case_eq, bytes_eq, to_lower, false, none, some, [], ◌∷◌, lit, Bytes}
use mukite.Utss.{dls_init}
use mukite.Jid.{Jid, jid_cmp, part_differs, host_differs}
use mukite.Acl.{AclConfig, AclEntry}
use mukite.Affiliation.{Affiliation, Affiliations}
use mukite.Participant.{Participant}

abbrev pub ann_node : Bytes
ann_node = lit "ann"

abbrev pub host : Bytes
host = lit "home.org"

abbrev pub phone : Bytes
phone = lit "phone"

abbrev pub ann : Jid
ann = record { node = some ann_node; host = some host; resource = some phone }

abbrev pub ann_loud : Jid
ann_loud = record ann { node = some (lit "ANN") }

abbrev pub bob : Jid
bob = record { node = some (lit "bob"); host = some host; resource = some phone }

-- A list of two entries: a stranger of rank 4, and everybody of the host with rank 1.
abbrev pub boss_entry : AclEntry
boss_entry = record {
  jid = record { node = some (lit "boss"); host = some host; resource = none };
  role = 4;
}

abbrev pub host_entry : AclEntry
host_entry = record { jid = record { node = none; host = some host; resource = none }; role = 1 }

abbrev pub acl : AclConfig
acl = record { default_role = 0; entries = boss_entry ∷ host_entry ∷ [] }

abbrev pub no_affiliations : Affiliations
no_affiliations = record {
  outcasts = dls_init 10;
  nones = dls_init 10;
  members = dls_init 10;
  admins = dls_init 10;
  owners = dls_init 10;
}

abbrev pub ann_affiliation : Affiliation
ann_affiliation = record { jid = record ann { resource = none }; reason_node = none }

-- Ann owns the room.
abbrev pub ann_owns : Affiliations
ann_owns = record no_affiliations {
  owners = record { entries = ann_affiliation ∷ []; size = 1; max_size = 10 };
}

abbrev pub ann_in_room : Participant
ann_in_room = record {
  id = 1;
  jid = ann;
  nick = some (lit "Ann");
  affiliation = 4;
  role = 3;
  presence = none;
  last_message_time = 0;
  last_presence_time = 0;
  included = false;
  reason_node = none;
}

abbrev pub bob_in_room : Participant
bob_in_room = record ann_in_room { id = 2; jid = bob; nick = some (lit "Bob"); affiliation = 3 }

-- What a run of `jid_cmp` computes with.
unfoldable pub cmp_runs : Unit {0}
unfolding jid_cmp part_differs host_differs case_eq bytes_eq to_lower
cmp_runs = tt
