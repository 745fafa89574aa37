-- ===== src/Examples/Forms.antt =====
-- The owner's form, and the ends of loops, at concrete blocks of memory.
use mukite.Common.{
  Ensures, Terminates, Outcome, fault, Option, ℕ, ◌≡◌, refl, Bytes, lit, length, none, some, ok,
  bytes_eq,
}
use mukite.Xmlfsm.{
  xmlfsm_next_sibling, xmlfsm_skip_node, scan_node, scan, scan_byte, close_tag, count_closed,
  xmlfsm_node_name, memchr, skip_while, whitespace, read, xmlfsm_skip_attrs, skip_attrs,
  xmlfsm_next_attr, attr_at, xmlfsm_skipto_attr, skipto_attr, Span,
}
use mukite.Room.Config.{
  config_fields, config_field, config_values, room_config_option_set, option_by_name, set_option,
  max_users, room_config_parse,
}
use mukite.Buffer.{BufferPtr, buffer_ptr_cpy, btoi, atoi, signed, digits, to_int}
use mukite.Room.{Room}
use mukite.Room.Config.Limits.{Configured}
use mukite.Room.Config.Forms.{room_config_parse-Configured}
use mukite.Room.Config.Fuel.{room_config_parse-Terminates}
use mukite.Room.Presence.{route_presence}
use mukite.Room.Presence.Ends.{route_presence-Terminates}
use mukite.Room.Message.{route_message}
use mukite.Room.Message.Ends.{route_message-Terminates}
use mukite.Examples.Data.{acl}
use mukite.Examples.Rooms.{den, full_den, boss_enters, ann_speaks}

minus_one : btoi (some (lit "-1")) ≡ 4294967295
unfolding btoi atoi signed digits to_int
minus_one = refl

number : btoi (some (lit " +0107x")) ≡ 107
unfolding btoi atoi signed digits to_int
number = refl

-- A form that allows two occupants and renames the room.
abbrev form : Bytes
form =
    lit
      "<field var='muc#roomconfig_maxusers'><value>2</value></field><field var='muc#roomconfig_roomname'><value>Den</value></field>"

abbrev form_span : Span
form_span = record { start = 0; stop = 124 }

room_config_parse-Configured_example :
    Ensures (Configured 1 den) (room_config_parse form form_span 1 den)
room_config_parse-Configured_example = room_config_parse-Configured form form_span 1 den

room_config_parse-Terminates_example : Terminates (room_config_parse form form_span 1 den)
room_config_parse-Terminates_example = room_config_parse-Terminates form form_span 1 den

route_presence-Terminates_example : Terminates (route_presence den boss_enters acl)
route_presence-Terminates_example = route_presence-Terminates den boss_enters acl

route_message-Terminates_example : Terminates (route_message full_den ann_speaks 100 10)
route_message-Terminates_example = route_message-Terminates full_den ann_speaks 100 10

size_of_form : length form ≡ 124
size_of_form = refl

-- The limit and the title that a room has after a run.
abbrev read_back : Outcome Room → Option (ℕ × BufferPtr)
read_back (ok room) = some (room.participants.max_size, room.title)
read_back (fault f) = none

form_is_read : read_back (room_config_parse form form_span 1 den) ≡ some (2, some (lit "Den"))
unfolding room_config_parse config_fields config_field config_values room_config_option_set
    option_by_name set_option max_users btoi atoi signed digits to_int buffer_ptr_cpy bytes_eq
    xmlfsm_next_sibling xmlfsm_skip_node scan_node scan scan_byte close_tag count_closed
    xmlfsm_node_name memchr skip_while whitespace read xmlfsm_skip_attrs skip_attrs xmlfsm_next_attr
    attr_at xmlfsm_skipto_attr skipto_attr
form_is_read = refl
