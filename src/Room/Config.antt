-- ===== src/Room/Config.antt =====
-- The owner's form of a room: `room_config_option_set` and `room_config_parse` of room.c.
pub mod Limits
pub mod Forms
pub mod Fuel
use mukite.Common.{
  ℕ, zero, suc, ◌+◌, ◌-◌, Bool, true, false, not, ◌&&◌, ◌||◌, Option, none, some, List, [], ◌∷◌,
  Bytes, lit, ◌==◌, ltb, leb, if◌then◌else◌, length, Outcome, ok, fault, out_of_fuel, ◌>>=◌,
  bytes_eq,
}
use mukite.Buffer.{BufferPtr, bpt_size, bpt_eq, buffer_ptr_cpy, btoi}
use mukite.Acl.{acl_muc_persist}
use mukite.Xmlfsm.{Span, slice, xmlfsm_skip_attrs, xmlfsm_skipto_attr, xmlfsm_next_sibling}
use mukite.Packet.{bytes_at}
use mukite.Room.{
  Room, RoomFlags, role_visitor, role_participant, user_string_option_limit, participants_limit,
}

-- The options that the form may name.
pub data RoomOption : Type 0 where
  roomname roomdesc persistentroom publicroom public_list : RoomOption
  passwordprotectedroom roomsecret maxusers whois membersonly : RoomOption
  moderatedroom members_by_default changesubject allow_private_messages : RoomOption
  allow_query_users allowinvites allowvisitorspm allowvisitorpresence mewcat : RoomOption

-- The tests of `room_config_option_set`, in their order.
unfoldable pub option_by_name : BufferPtr → Option RoomOption
option_by_name var =
    if bpt_eq (lit "muc#roomconfig_roomname") var
    then some roomname
    else if bpt_eq (lit "muc#roomconfig_roomdesc") var
    then some roomdesc
    else if bpt_eq (lit "muc#roomconfig_persistentroom") var
    then some persistentroom
    else if bpt_eq (lit "muc#roomconfig_publicroom") var
    then some publicroom
    else if bpt_eq (lit "public_list") var
    then some public_list
    else if bpt_eq (lit "muc#roomconfig_passwordprotectedroom") var
    then some passwordprotectedroom
    else if bpt_eq (lit "muc#roomconfig_roomsecret") var
    then some roomsecret
    else if bpt_eq (lit "muc#roomconfig_maxusers") var
    then some maxusers
    else if bpt_eq (lit "muc#roomconfig_whois") var
    then some whois
    else if bpt_eq (lit "muc#roomconfig_membersonly") var
    then some membersonly
    else if bpt_eq (lit "muc#roomconfig_moderatedroom") var
    then some moderatedroom
    else if bpt_eq (lit "members_by_default") var
    then some members_by_default
    else if bpt_eq (lit "muc#roomconfig_changesubject") var
    then some changesubject
    else if bpt_eq (lit "allow_private_messages") var
    then some allow_private_messages
    else if bpt_eq (lit "allow_query_users") var
    then some allow_query_users
    else if bpt_eq (lit "muc#roomconfig_allowinvites") var
    then some allowinvites
    else if bpt_eq (lit "muc#roomconfig_allowvisitorspm") var
    then some allowvisitorspm
    else if bpt_eq (lit "muc#roomconfig_allowvisitorpresence") var
    then some allowvisitorpresence
    else if bpt_eq (lit "muc#roomconfig_mewcat") var
    then some mewcat
    else none

-- `btoi(value)` as a condition.
abbrev pub truth : BufferPtr → Bool
truth value = not (btoi value == 0)

-- A number of 32 bits that is not positive, or beyond the limit, becomes the limit.
unfoldable pub max_users : ℕ → ℕ
max_users n = if n == 0 || ltb participants_limit n then participants_limit else n

-- What an option does to the flags.
unfoldable pub set_flag : RoomFlags → RoomOption → BufferPtr → ℕ → RoomFlags
unfolding btoi
set_flag f persistentroom value acl =
    if leb acl_muc_persist acl then record f { persistent_room = truth value } else f
set_flag f publicroom value acl = record f { public_room = truth value }
set_flag f public_list value acl = record f { public_participants = truth value }
set_flag f passwordprotectedroom value acl =
    if leb (bpt_size value) user_string_option_limit
    then record f { password_protected_room = truth value }
    else f
set_flag f whois value acl = record f { semi_anonymous = bpt_eq (lit "moderators") value }
set_flag f membersonly value acl = record f { members_only = truth value }
set_flag f moderatedroom value acl = record f { moderated_room = truth value }
set_flag f changesubject value acl = record f { change_subject = truth value }
set_flag f allow_private_messages value acl = record f { allow_pm = truth value }
set_flag f allow_query_users value acl = record f { iq_proxy = truth value }
set_flag f allowinvites value acl = record f { invites = truth value }
set_flag f allowvisitorspm value acl = record f { visitors_pm = truth value }
set_flag f allowvisitorpresence value acl = record f { visitor_presence = truth value }
set_flag f mewcat value acl = record f { mewcat = truth value }
set_flag f _ value acl = f

-- The branch of an option.
unfoldable pub set_option : Room → RoomOption → BufferPtr → ℕ → Room
unfolding buffer_ptr_cpy btoi max_users set_flag
set_option room roomname value acl =
    if leb (bpt_size value) user_string_option_limit
    then record room { title = buffer_ptr_cpy value }
    else room
set_option room roomdesc value acl =
    if leb (bpt_size value) user_string_option_limit
    then record room { description = buffer_ptr_cpy value }
    else room
set_option room roomsecret value acl = record room { password = buffer_ptr_cpy value }
set_option room maxusers value acl = record room {
  participants = record room.participants { max_size = max_users (btoi value) };
}
set_option room members_by_default value acl = record room {
  default_role = if truth value then role_participant else role_visitor;
}
set_option room option value acl = record room { flags = set_flag room.flags option value acl }

-- `room_config_option_set`, which always succeeds.
unfoldable pub room_config_option_set : Room → BufferPtr → BufferPtr → ℕ → Room
unfolding option_by_name set_option
room_config_option_set room var value acl = elim (option_by_name var) [
  | none ↦ room
  | some option ↦ set_option room option value acl
]

-- The loop over the nodes of a field. A value is followed by its closing tag, of eight bytes.
unfoldable pub config_values : ℕ → Bytes → Span → BufferPtr → ℕ → Room → Outcome Room
unfolding room_config_option_set xmlfsm_next_sibling xmlfsm_skip_attrs
config_values zero mem b var acl room = fault out_of_fuel
config_values (suc fuel) mem b var acl room = do
  sibling ← xmlfsm_next_sibling mem b
  elim sibling [
    | none ↦ ok room
    | some n ↦ elim (bytes_eq (lit "value") (slice mem n.node_name)) [
      | false ↦ config_values fuel mem n.buffer var acl room
      | true ↦ do
        (open_tag, q) ← xmlfsm_skip_attrs mem n.node.start
        let value = bytes_at mem (some (record { start = q; stop = n.node.stop - 8 }))
        config_values fuel mem n.buffer var acl
            (if open_tag then room_config_option_set room var value acl else room)
    ]
  ]

-- The body of the loop over the fields.
unfoldable pub config_field : Bytes → Span → ℕ → Room → Outcome Room
unfolding config_values xmlfsm_skipto_attr xmlfsm_skip_attrs
config_field mem node acl room = do
  (found, q) ← xmlfsm_skipto_attr (lit "var") mem node.start
  elim found [
    | none ↦ ok room
    | some attr ↦ do
      (open_tag, r) ← xmlfsm_skip_attrs mem q
      (if open_tag
          then config_values (length mem + 1) mem (record { start = r; stop = node.stop })
              (bytes_at mem (some attr.value)) acl room
          else ok room)
  ]

-- The loop of `room_config_parse`.
unfoldable pub config_fields : ℕ → Bytes → Span → ℕ → Room → Outcome Room
unfolding config_field xmlfsm_next_sibling
config_fields zero mem b acl room = fault out_of_fuel
config_fields (suc fuel) mem b acl room = do
  sibling ← xmlfsm_next_sibling mem b
  elim sibling [
    | none ↦ ok room
    | some n ↦ elim (bytes_eq (lit "field") (slice mem n.node_name)) [
      | false ↦ config_fields fuel mem n.buffer acl room
      | true ↦ do
        changed ← config_field mem n.node acl room
        config_fields fuel mem n.buffer acl changed
    ]
  ]

-- `room_config_parse`
unfoldable pub room_config_parse : Bytes → Span → ℕ → Room → Outcome Room
unfolding config_fields
room_config_parse mem data_span acl room = config_fields (length mem + 1) mem data_span acl room
