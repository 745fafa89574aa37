-- ===== src/Builder/Form.antt =====
-- `build_room_config` of builder.c: the form that a room is configured with.
use mukite.Common.{Bool, ◌++◌, Bytes, lit, ◌==◌, if◌then◌else◌}
use mukite.Buffer.{contents}
use mukite.RoomState.{Room, role_participant}
use mukite.Builder.{Push, push, ◌>>◌, skip, push_fmt, push_bool}

-- BUF_PUSH_FIELD
unfoldable pub push_field : Bytes → Bytes → Bytes → Push → Push → Push
push_field type label var value appendix =
    push (
      lit "<field type='"
      ++ (type ++ (lit "' label='" ++ (label ++ (lit "' var='" ++ (var ++ lit "'><value>"))))))
    >> value
    >> push (lit "</value>")
    >> appendix
    >> push (lit "</field>")

unfoldable pub push_flag : Bytes → Bytes → Bool → Push
push_flag label var value = push_field (lit "boolean") label var (push_bool value) skip

unfoldable pub push_whois : Bool → Push
push_whois semi_anonymous = if semi_anonymous then push (lit "moderators") else push (lit "anyone")

-- The fields, in four groups.
unfoldable pub push_titles : Room → Push
push_titles room =
    push (
      lit
        "<instructions>You need an x:data capable client to configure room</instructions><x xmlns='jabber:x:data' type='form'><title>Configuration of room ")
    >> push (contents room.node)
    >> push (lit "</title>")
    >> push_field (lit "hidden") (lit "") (lit "FORM_TYPE")
        (push (lit "http://jabber.org/protocol/muc#roomconfig")) skip
    >> push_field (lit "text-single") (lit "Room title") (lit "muc#roomconfig_roomname")
        (push (contents room.title)) skip
    >> push_field (lit "text-single") (lit "Room description") (lit "muc#roomconfig_roomdesc")
        (push (contents room.description)) skip

unfoldable pub push_visibility : Room → Push
push_visibility room =
    push_flag (lit "Make room persistent") (lit "muc#roomconfig_persistentroom")
      room.flags.persistent_room
    >> push_flag (lit "Make room public searchable") (lit "muc#roomconfig_publicroom")
        room.flags.public_room
    >> push_flag (lit "Make participants list public") (lit "public_list")
        room.flags.public_participants
    >> push_flag (lit "Make room password protected") (lit "muc#roomconfig_passwordprotectedroom")
        room.flags.password_protected_room

unfoldable pub push_limits : Room → Push
push_limits room =
    push_field (lit "text-private") (lit "Password") (lit "muc#roomconfig_roomsecret")
      (push (contents room.password)) skip
    >> push_field (lit "list-single") (lit "Maximum Number of Occupants")
        (lit "muc#roomconfig_maxusers") (push_fmt room.participants.max_size)
        (push (
          lit
            "<option label='5'><value>5</value></option><option label='10'><value>10</value></option><option label='20'><value>20</value></option><option label='30'><value>30</value></option><option label='50'><value>50</value></option><option label='100'><value>100</value></option><option label='200'><value>200</value></option><option label='500'><value>500</value></option><option label='1000'><value>1000</value></option>"))
    >> push_field (lit "list-single") (lit "Present real Jabber IDs to")
        (lit "muc#roomconfig_whois") (push_whois room.flags.semi_anonymous)
        (push (
          lit
            "<option label='moderators only'><value>moderators</value></option><option label='anyone'><value>anyone</value></option>"))

unfoldable pub push_rights : Room → Push
push_rights room =
    push_flag (lit "Make room members-only") (lit "muc#roomconfig_membersonly")
      room.flags.members_only
    >> push_flag (lit "Make room moderated") (lit "muc#roomconfig_moderatedroom")
        room.flags.moderated_room
    >> push_flag (lit "Default users as participants") (lit "members_by_default")
        (room.default_role == role_participant)
    >> push_flag (lit "Allow users to change the subject") (lit "muc#roomconfig_changesubject")
        room.flags.change_subject
    >> push_flag (lit "Allow users to send private messages") (lit "allow_private_messages")
        room.flags.allow_pm
    >> push_flag (lit "Allow users to query other users") (lit "allow_query_users")
        room.flags.iq_proxy
    >> push_flag (lit "Allow users to send invites") (lit "muc#roomconfig_allowinvites")
        room.flags.invites
    >> push_flag (lit "Allow visitors to send private messages")
        (lit "muc#roomconfig_allowvisitorspm") room.flags.visitors_pm
    >> push_flag (lit "Allow visitors to send custom status and change nickname")
        (lit "muc#roomconfig_allowvisitorpresence") room.flags.visitor_presence
    >> push_flag (lit "Enable built-in bot (MewCat)") (lit "muc#roomconfig_mewcat")
        room.flags.mewcat

-- `build_room_config`
unfoldable pub build_room_config : Room → Push
build_room_config room =
    push_titles room
    >> push_visibility room
    >> push_limits room
    >> push_rights room
    >> push (lit "</x>")
