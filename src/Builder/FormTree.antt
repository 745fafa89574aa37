-- ===== src/Builder/FormTree.antt =====
-- The form that a room is configured with, as a tree of XML.
use mukite.Common.{Bool, [], ◌∷◌, Bytes, lit, ◌==◌, if◌then◌else◌}
use mukite.Buffer.{contents}
use mukite.RoomState.{Room, role_participant}
use mukite.Builder.{decimal}
use mukite.Builder.Tree.{named, Tree, nil, text, element, both}

abbrev pub field : Bytes → Bytes → Bytes → Tree → Tree → Tree
field type label var value appendix =
    element (lit "field")
      (named (lit "type") type ∷ named (lit "label") label ∷ named (lit "var") var ∷ [])
      (both (element (lit "value") [] value) appendix)

abbrev pub flag_field : Bytes → Bytes → Bool → Tree
flag_field label var value =
    field (lit "boolean") label var (text (if value then lit "1" else lit "0")) nil

abbrev pub choice : Bytes → Bytes → Tree
choice label value =
    element (lit "option") (named (lit "label") label ∷ []) (element (lit "value") [] (text value))

abbrev pub limit_options : Tree
limit_options = both (choice (lit "5") (lit "5")) (
    both (choice (lit "10") (lit "10")) (
      both (choice (lit "20") (lit "20")) (
        both (choice (lit "30") (lit "30")) (
          both (choice (lit "50") (lit "50")) (
            both (choice (lit "100") (lit "100")) (
              both (choice (lit "200") (lit "200"))
                (both (choice (lit "500") (lit "500")) (choice (lit "1000") (lit "1000")))))))))

abbrev pub whois_options : Tree
whois_options =
    both (choice (lit "moderators only") (lit "moderators")) (choice (lit "anyone") (lit "anyone"))

abbrev pub titles : Room → Tree
titles room =
    both
      (field (lit "hidden") (lit "") (lit "FORM_TYPE")
        (text (lit "http://jabber.org/protocol/muc#roomconfig")) nil)
      (both
        (field (lit "text-single") (lit "Room title") (lit "muc#roomconfig_roomname")
          (text (contents room.title)) nil)
        (field (lit "text-single") (lit "Room description") (lit "muc#roomconfig_roomdesc")
          (text (contents room.description)) nil))

abbrev pub visibility : Room → Tree
visibility room =
    both
      (flag_field (lit "Make room persistent") (lit "muc#roomconfig_persistentroom")
        room.flags.persistent_room)
      (both
        (flag_field (lit "Make room public searchable") (lit "muc#roomconfig_publicroom")
          room.flags.public_room)
        (both
          (flag_field (lit "Make participants list public") (lit "public_list")
            room.flags.public_participants)
          (flag_field (lit "Make room password protected")
            (lit "muc#roomconfig_passwordprotectedroom") room.flags.password_protected_room)))

abbrev pub limits : Room → Tree
limits room =
    both
      (field (lit "text-private") (lit "Password") (lit "muc#roomconfig_roomsecret")
        (text (contents room.password)) nil)
      (both
        (field (lit "list-single") (lit "Maximum Number of Occupants")
          (lit "muc#roomconfig_maxusers") (text (decimal room.participants.max_size)) limit_options)
        (field (lit "list-single") (lit "Present real Jabber IDs to") (lit "muc#roomconfig_whois")
          (text (if room.flags.semi_anonymous then lit "moderators" else lit "anyone"))
          whois_options))

abbrev pub rights : Room → Tree
rights room =
    both
      (flag_field (lit "Make room members-only") (lit "muc#roomconfig_membersonly")
        room.flags.members_only)
      (both
        (flag_field (lit "Make room moderated") (lit "muc#roomconfig_moderatedroom")
          room.flags.moderated_room)
        (both
          (flag_field (lit "Default users as participants") (lit "members_by_default")
            (room.default_role == role_participant))
          (both
            (flag_field (lit "Allow users to change the subject")
              (lit "muc#roomconfig_changesubject") room.flags.change_subject)
            (both
              (flag_field (lit "Allow users to send private messages")
                (lit "allow_private_messages") room.flags.allow_pm)
              (both
                (flag_field (lit "Allow users to query other users") (lit "allow_query_users")
                  room.flags.iq_proxy)
                (both
                  (flag_field (lit "Allow users to send invites")
                    (lit "muc#roomconfig_allowinvites") room.flags.invites)
                  (both
                    (flag_field (lit "Allow visitors to send private messages")
                      (lit "muc#roomconfig_allowvisitorspm") room.flags.visitors_pm)
                    (both
                      (flag_field (lit "Allow visitors to send custom status and change nickname")
                        (lit "muc#roomconfig_allowvisitorpresence") room.flags.visitor_presence)
                      (flag_field (lit "Enable built-in bot (MewCat)") (lit "muc#roomconfig_mewcat")
                        room.flags.mewcat)))))))))

-- The whole answer: instructions, and a form of fields.
abbrev pub form_tree : Room → Tree
form_tree room =
    both
      (element (lit "instructions") []
        (text (lit "You need an x:data capable client to configure room")))
      (element (lit "x")
        (named (lit "xmlns") (lit "jabber:x:data") ∷ named (lit "type") (lit "form") ∷ [])
        (both
          (element (lit "title") []
            (both (text (lit "Configuration of room ")) (text (contents room.node))))
          (both (titles room) (both (visibility room) (both (limits room) (rights room))))))
