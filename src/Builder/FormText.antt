-- ===== src/Builder/FormText.antt =====
-- What `build_room_config` of builder.c writes.
use mukite.Common.{ℕ, refl, Bool, true, false, ◌++◌, Bytes, lit, ◌==◌, if◌then◌else◌, append_assoc}
use mukite.Buffer.{contents}
use mukite.RoomState.{Room, role_participant}
use mukite.Builder.{Push, skip, push, ◌>>◌, decimal, push_fmt, push_bool}
use mukite.Builder.Form.{
  push_field, push_flag, push_whois, push_titles, push_visibility, push_limits, push_rights,
  build_room_config,
}
use mukite.Builder.Tree.{Tree, nil, text, print}
use mukite.Builder.FormTree.{
  field, flag_field, limit_options, whois_options, titles, visibility, limits, rights, form_tree,
}
use mukite.Builder.Writes.{
  Writes, skip-Writes, push-Writes, push-Refuses, then-Refuses, ◌▷◌, as_text,
}
use mukite.Builder.Early.{early_then, fmt-Early}

-- What opens a field.
abbrev field_start : Bytes → Bytes → Bytes → Bytes
field_start type label var =
    lit "<field type='"
    ++ (type ++ (lit "' label='" ++ (label ++ (lit "' var='" ++ (var ++ lit "'><value>")))))

push_field-Writes :
    (type label var : Bytes) {value appendix : Push} (s t : Tree)
    → Writes value (print s)
    → Writes appendix (print t)
    → Writes (push_field type label var value appendix) (print (field type label var s t))
unfolding push_field
push_field-Writes type label var s t v a =
    as_text (push-Writes _ ▷ v ▷ push-Writes _ ▷ a ▷ push-Writes _) (λ r. simp (append_assoc))

value-Writes :
    (type label var value : Bytes)
    → Writes
        (push_field type label var (push value) skip)
        (print (field type label var (text value) nil))
value-Writes type label var value =
    push_field-Writes type label var (text value) nil (push-Writes value) skip-Writes

push_flag-Writes :
    (label var : Bytes) (value : Bool)
    → Writes (push_flag label var value) (print (flag_field label var value))
unfolding push_flag push_bool
push_flag-Writes label var true = value-Writes (lit "boolean") label var (lit "1")
push_flag-Writes label var false = value-Writes (lit "boolean") label var (lit "0")

whois-Writes :
    (semi : Bool)
    → Writes
        (push_field
          (lit "list-single")
          (lit "Present real Jabber IDs to")
          (lit "muc#roomconfig_whois")
          (push_whois semi)
          (push (
            lit
              "<option label='moderators only'><value>moderators</value></option><option label='anyone'><value>anyone</value></option>")))
        (print (
          field
            (lit "list-single")
            (lit "Present real Jabber IDs to")
            (lit "muc#roomconfig_whois")
            (text (if semi then lit "moderators" else lit "anyone"))
            whois_options))
unfolding push_whois
whois-Writes true =
    push_field-Writes _ _ _ (text (lit "moderators")) whois_options (push-Writes _)
      (as_text (push-Writes _) (λ r. refl))
whois-Writes false =
    push_field-Writes _ _ _ (text (lit "anyone")) whois_options (push-Writes _)
      (as_text (push-Writes _) (λ r. refl))

max_users-Writes :
    (limit : ℕ)
    → Writes
        (push_field
          (lit "list-single")
          (lit "Maximum Number of Occupants")
          (lit "muc#roomconfig_maxusers")
          (push_fmt limit)
          (push (
            lit
              "<option label='5'><value>5</value></option><option label='10'><value>10</value></option><option label='20'><value>20</value></option><option label='30'><value>30</value></option><option label='50'><value>50</value></option><option label='100'><value>100</value></option><option label='200'><value>200</value></option><option label='500'><value>500</value></option><option label='1000'><value>1000</value></option>")))
        (print (
          field
            (lit "list-single")
            (lit "Maximum Number of Occupants")
            (lit "muc#roomconfig_maxusers")
            (text (decimal limit))
            limit_options))
unfolding push_field
max_users-Writes limit =
    as_text
      (push-Writes _
        ▷ early_then (push_fmt limit) (push _ >> push _ >> push _) (decimal limit) (fmt-Early limit)
            (push-Writes _ ▷ push-Writes _ ▷ push-Writes _)
            (then-Refuses (push _) (push _ >> push _) (push-Refuses 60 _)))
      (λ r. refl)

push_titles-Writes :
    (room : Room)
    → Writes (push_titles room) (λ r.
      lit
        "<instructions>You need an x:data capable client to configure room</instructions><x xmlns='jabber:x:data' type='form'><title>Configuration of room "
      ++ (contents room.node ++ (lit "</title>" ++ print (titles room) r)))
unfolding push_titles
push_titles-Writes room =
    as_text
      (push-Writes _
        ▷ push-Writes (contents room.node)
        ▷ push-Writes _
        ▷ value-Writes _ _ _ _
        ▷ value-Writes _ _ _ (contents room.title)
        ▷ value-Writes _ _ _ (contents room.description))
      (λ r. refl)

push_visibility-Writes : (room : Room) → Writes (push_visibility room) (print (visibility room))
unfolding push_visibility
push_visibility-Writes room =
    as_text
      (push_flag-Writes _ _ room.flags.persistent_room
        ▷ push_flag-Writes _ _ room.flags.public_room
        ▷ push_flag-Writes _ _ room.flags.public_participants
        ▷ push_flag-Writes _ _ room.flags.password_protected_room)
      (λ r. refl)

push_limits-Writes : (room : Room) → Writes (push_limits room) (print (limits room))
unfolding push_limits
push_limits-Writes room =
    as_text
      (value-Writes _ _ _ (contents room.password)
        ▷ max_users-Writes room.participants.max_size
        ▷ whois-Writes room.flags.semi_anonymous)
      (λ r. refl)

push_rights-Writes : (room : Room) → Writes (push_rights room) (print (rights room))
unfolding push_rights
push_rights-Writes room =
    as_text
      (push_flag-Writes _ _ room.flags.members_only
        ▷ push_flag-Writes _ _ room.flags.moderated_room
        ▷ push_flag-Writes _ _ (room.default_role == role_participant)
        ▷ push_flag-Writes _ _ room.flags.change_subject
        ▷ push_flag-Writes _ _ room.flags.allow_pm
        ▷ push_flag-Writes _ _ room.flags.iq_proxy
        ▷ push_flag-Writes _ _ room.flags.invites
        ▷ push_flag-Writes _ _ room.flags.visitors_pm
        ▷ push_flag-Writes _ _ room.flags.visitor_presence
        ▷ push_flag-Writes _ _ room.flags.mewcat)
      (λ r. refl)

pub build_room_config-Writes :
    (room : Room) → Writes (build_room_config room) (print (form_tree room))
unfolding build_room_config
build_room_config-Writes room =
    as_text
      (push_titles-Writes room
        ▷ push_visibility-Writes room
        ▷ push_limits-Writes room
        ▷ push_rights-Writes room
        ▷ push-Writes _)
      (λ r. refl)
