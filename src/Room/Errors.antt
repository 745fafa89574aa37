-- ===== src/Room/Errors.antt =====
-- The errors of room.c, by the names of their indices in `error_definitions`.
use mukite.Common.{lit}
use mukite.Packet.{XmppError}

pub data RoomError : Type 0 where
  external_message recipient_not_in_room no_visitors_pm no_visitors_public : RoomError
  occupant_conflict occupants_limit banned members_only : RoomError
  external_iq iq_prohibited iq_bad privilege_level : RoomError
  traffic_rate no_visitors_presence password no_pm : RoomError
  not_implemented jid_malformed : RoomError

-- `error_definitions`
unfoldable pub error_definitions : RoomError → XmppError
error_definitions external_message = record {
  code = lit "406";
  name = lit "not-acceptable";
  type = lit "modify";
  text = lit "Only participants are allowed to send messages to this conference";
}
error_definitions recipient_not_in_room = record {
  code = lit "404";
  name = lit "item-not-found";
  type = lit "cancel";
  text = lit "Recipient is not in the conference room";
}
error_definitions no_visitors_pm = record {
  code = lit "403";
  name = lit "forbidden";
  type = lit "cancel";
  text = lit "Visitors are not allowed to send private messages in this room";
}
error_definitions no_visitors_public = record {
  code = lit "403";
  name = lit "forbidden";
  type = lit "cancel";
  text = lit "Visitors are not allowed to send messages to the public chat in a moderated room";
}
error_definitions occupant_conflict = record {
  code = lit "";
  name = lit "conflict";
  type = lit "modify";
  text = lit "This nickname is already in use by another occupant";
}
error_definitions occupants_limit = record {
  code = lit "";
  name = lit "not-allowed";
  type = lit "wait";
  text = lit "Maximum number of occupants has been reached for this room";
}
error_definitions banned = record {
  code = lit "403";
  name = lit "forbidden";
  type = lit "cancel";
  text = lit "You are banned from this room";
}
error_definitions members_only = record {
  code = lit "403";
  name = lit "forbidden";
  type = lit "cancel";
  text = lit "Only members are allowed to enter this room";
}
error_definitions external_iq = record {
  code = lit "406";
  name = lit "not-acceptable";
  type = lit "modify";
  text = lit "Only occupants are allowed to send queries to the conference";
}
error_definitions iq_prohibited = record {
  code = lit "405";
  name = lit "not-allowed";
  type = lit "cancel";
  text = lit "Queries to the conference occupants are not allowed in this room";
}
error_definitions iq_bad = record {
  code = lit "400";
  name = lit "bad-request";
  type = lit "modify";
  text = lit "";
}
error_definitions privilege_level = record {
  code = lit "403";
  name = lit "forbidden";
  type = lit "cancel";
  text = lit "This kind of action requires higher privileges than you have";
}
error_definitions traffic_rate = record {
  code = lit "500";
  name = lit "resource-constraint";
  type = lit "wait";
  text = lit "Traffic rate limit exceeded";
}
error_definitions no_visitors_presence = record {
  code = lit "403";
  name = lit "forbidden";
  type = lit "cancel";
  text = lit "Visitors are not allowed to update their presence in this room";
}
error_definitions password = record {
  code = lit "403";
  name = lit "not-authorized";
  type = lit "modify";
  text = lit "This room is password protected and the password was not supplied or is incorrect";
}
error_definitions no_pm = record {
  code = lit "403";
  name = lit "forbidden";
  type = lit "cancel";
  text = lit "Private messages are not allowed in this room";
}
error_definitions not_implemented = record {
  code = lit "501";
  name = lit "feature-not-implemented";
  type = lit "cancel";
  text = lit "This service does not provide the requested feature";
}
error_definitions jid_malformed = record {
  code = lit "400";
  name = lit "jid-malformed";
  type = lit "modify";
  text = lit "You should specify a room nickname";
}
