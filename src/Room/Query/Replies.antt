-- ===== src/Room/Query/Replies.antt =====
-- The occupants' invariant up to the reply of a query.
use mukite.Common.{
  ℕ, zero, suc, ◌+◌, ◌≡◌, refl, ap, Bool, inl, inr, Option, none, some, List, [], length, ◌==◌,
  if-cases, Bool-cases, Option-cases, Outcome, ok, fault, ◌>>=◌, Ensures, bind-Ensures, Ensures-map,
  Bytes, lit, bytes_eq,
}
use mukite.Acl.{AclConfig, acl_role}
use mukite.Xmlfsm.{Span, Node, slice, xmlfsm_skip_attrs, xmlfsm_next_sibling}
use mukite.Participant.{Participant}
use mukite.Affiliation.{affil_none}
use mukite.Packet.{IncomingPacket, stanza_iq_get, stanza_iq_set}
use mukite.Room.{Room}
use mukite.Room.Valid.{OccupantsValid}
use mukite.Room.Query.Items.{NextItem, no_item, bad_item, item, next_muc_admin_item}
use mukite.Room.Query.Admin.{Applied, done, refused}
use mukite.Room.Query.{
  Handled, reply, refuse, with_rank, affiliations_reply, get_query, set_query, admin_reply,
  owner_reply, handle_query, QueryNode, disco_info, disco_items, muc_admin, muc_owner, is_admin,
  is_owner, is_moderator,
}
use mukite.Room.Query.Owner.{
  Owned, destroyed, configured, unknown, everybody, put_out, non_member, without_role, destroy_room,
  apply_policy, configure, owner_nodes, owner_query,
}
use mukite.Room.Query.Alike.{Alike, Alike-IsValid, mark_where-Alike, Alike-refl}
use mukite.Room.Config.{room_config_parse}
use mukite.Room.Config.Limits.{Configured}
use mukite.Room.Config.Forms.{room_config_parse-Configured}
use mukite.Room.Query.Changes.{AppliedValid, admin_items-Valid}

-- The same for the owner's queries.
abbrev OwnedValid : Owned → Type 0
OwnedValid (destroyed room affected) = OccupantsValid room
OwnedValid (configured room affected) = OccupantsValid room
OwnedValid unknown = Unit {0}

module _ (room : Room) (v : OccupantsValid room) where
  destroy_room-Valid : OwnedValid (destroy_room room)
  unfolding destroy_room
  destroy_room-Valid = Alike-IsValid room.participants room.next_id _ v (
      mark_where-Alike everybody put_out none (λ p. record { id = refl; jid = refl; nick = refl })
        room.participants.entries [])

  apply_policy-Valid : OwnedValid (apply_policy room)
  unfolding apply_policy
  apply_policy-Valid = Alike-IsValid room.participants room.next_id _ v (
      if-cases (λ (r : List Participant × List ℕ). Alike room.participants.entries r.0)
        room.flags.members_only
        (mark_where-Alike non_member without_role _
          (λ p. record { id = refl; jid = refl; nick = refl }) room.participants.entries [])
        (Alike-refl room.participants.entries))

configured-Valid :
    (acl : ℕ) (before after : Room)
    → OccupantsValid before
    → Configured acl before after
    → OccupantsValid after
configured-Valid acl before after v c =
    let entries : after.participants.entries ≡ before.participants.entries =
      ap (λ u. u.entries) c.same in
    let size : after.participants.size ≡ before.participants.size = ap (λ u. u.size) c.same in
    let next_id : after.next_id ≡ before.next_id = ap (λ u. u.next_id) c.same in
    record {
      ids = rw (entries, next_id) v.ids;
      nicks = λ n. rw entries (v.nicks n);
      jids = λ j. rw entries (v.jids j);
      counted = rw (entries, size) v.counted;
    }

configure-Valid :
    (mem : Bytes) (acl : AclConfig) (sender : Participant) (room : Room) (n : Node)
    → OccupantsValid room
    → Ensures OwnedValid (configure mem acl sender room n)
unfolding configure
configure-Valid mem acl sender room n v =
    bind-Ensures _ (xmlfsm_skip_attrs mem n.node.start) _ (λ tag. by_form _ (
      if-cases (Ensures OccupantsValid) tag.0
        (Ensures-map _ _
          (room_config_parse mem (record { start = tag.1; stop = n.node.stop })
            (acl_role acl sender.jid) room)
          (λ r. configured-Valid (acl_role acl sender.jid) room r v)
          (room_config_parse-Configured mem (record { start = tag.1; stop = n.node.stop })
            (acl_role acl sender.jid) room))
        v))
  where
    by_form :
        (m : Outcome Room)
        → Ensures OccupantsValid m
        → Ensures OwnedValid (m >>= λ r. ok (apply_policy r))
    by_form (ok r) w = apply_policy-Valid r w
    by_form (fault f) w = tt

owner_nodes-Valid :
    (fuel : ℕ) (mem : Bytes) (acl : AclConfig) (sender : Participant) (room : Room) (b : Span)
    → OccupantsValid room
    → Ensures OwnedValid (owner_nodes fuel mem acl sender room b)
unfolding owner_nodes
owner_nodes-Valid zero mem acl sender room b v = tt
owner_nodes-Valid (suc fuel) mem acl sender room b v =
    bind-Ensures _ (xmlfsm_next_sibling mem b) _ (λ sibling. elim (Option-cases sibling) [
      | inl end ↦ rw end tt
      | inr (n, e) ↦ rw e (elim (Bool-cases (bytes_eq (lit "destroy") (slice mem n.node_name))) [
        | inl destroy ↦ rw destroy (destroy_room-Valid room v)
        | inr other ↦ rw other (elim (Bool-cases (bytes_eq (lit "x") (slice mem n.node_name))) [
          | inl x ↦ rw x (configure-Valid mem acl sender room n v)
          | inr skipped ↦ rw skipped (owner_nodes-Valid fuel mem acl sender room n.buffer v)
        ])
      ])
    ])

-- What is known of the room that a query leaves.
abbrev pub HandledValid : Handled → Type 0
HandledValid (reply t data_of room affected) = OccupantsValid room
HandledValid (refuse room e) = OccupantsValid room

module _ (room : Room) (v : OccupantsValid room) where
  ranked-Valid :
      (enough : Participant → Bool) (sender : Option Participant)
      (k : Participant → Outcome Handled)
      → ((p : Participant) → Ensures HandledValid (k p))
      → Ensures HandledValid (with_rank room enough sender k)
  ranked-Valid enough none k h = v
  ranked-Valid enough (some p) k h = if-cases (Ensures HandledValid) (enough p) (h p) v

  affiliations_reply-Valid : (next : NextItem) → HandledValid (affiliations_reply room next)
  unfolding affiliations_reply
  affiliations_reply-Valid no_item = v
  affiliations_reply-Valid bad_item = v
  affiliations_reply-Valid (item target rest) = elim (Option-cases target.affiliation) [
    | inl missing ↦ rw (HandledValid, missing) v
    | inr (a, e) ↦ rw (HandledValid, e) (if-cases HandledValid (a == affil_none) v v)
  ]

  get_query-Valid :
      (mem : Bytes) (sender : Option Participant) (q : QueryNode)
      → Ensures HandledValid (get_query mem room sender q)
  unfolding get_query
  get_query-Valid mem sender q = if-cases (Ensures HandledValid) (bytes_eq disco_info q.xmlns) v (
      if-cases (Ensures HandledValid) (bytes_eq disco_items q.xmlns)
        (if-cases HandledValid room.flags.public_participants v v)
        (if-cases (Ensures HandledValid) (bytes_eq muc_admin q.xmlns)
          (if-cases (Ensures HandledValid) q.is_empty v (
            ranked-Valid is_admin sender _
              (λ p. bind-Ensures _ (next_muc_admin_item mem q.node) _ affiliations_reply-Valid)))
          (if-cases (Ensures HandledValid) (bytes_eq muc_owner q.xmlns)
            (ranked-Valid is_owner sender _ (λ p. v)) v)))

  admin_reply-Valid :
      (m : Outcome Applied)
      → Ensures AppliedValid m
      → Ensures HandledValid (m >>= λ applied. ok (admin_reply applied))
  unfolding admin_reply
  admin_reply-Valid (ok (done r affected)) h = h
  admin_reply-Valid (ok (refused r e)) h = h
  admin_reply-Valid (fault f) h = tt

  owner_reply-Valid :
      (m : Outcome Owned)
      → Ensures OwnedValid m
      → Ensures HandledValid (m >>= λ owned. ok (owner_reply room owned))
  unfolding owner_reply
  owner_reply-Valid (ok (destroyed r affected)) h = h
  owner_reply-Valid (ok (configured r affected)) h = h
  owner_reply-Valid (ok unknown) h = v
  owner_reply-Valid (fault f) h = tt

  set_query-Valid :
      (mem : Bytes) (acl : AclConfig) (sender : Option Participant) (q : QueryNode)
      → Ensures HandledValid (set_query mem acl room sender q)
  unfolding set_query owner_query
  set_query-Valid mem acl sender q =
      if-cases (Ensures HandledValid) (bytes_eq muc_admin q.xmlns)
        (if-cases (Ensures HandledValid) q.is_empty v (
          ranked-Valid is_moderator sender _ (λ p.
            admin_reply-Valid _ (admin_items-Valid (length mem + 1) mem acl p room [] q.node v))))
        (if-cases (Ensures HandledValid) (bytes_eq muc_owner q.xmlns)
          (if-cases (Ensures HandledValid) q.is_empty v (
            ranked-Valid is_owner sender _ (λ p.
              owner_reply-Valid _ (owner_nodes-Valid (length mem + 1) mem acl p room q.node v))))
          v)

  pub handle_query-Valid :
      (acl : AclConfig) (ingress : IncomingPacket) (sender : Option Participant)
      (q : Option QueryNode)
      → Ensures HandledValid (handle_query acl room ingress sender q)
  unfolding handle_query
  handle_query-Valid acl ingress sender none = v
  handle_query-Valid acl ingress sender (some q) =
      if-cases (Ensures HandledValid) (ingress.type == stanza_iq_get)
        (get_query-Valid ingress.mem sender q)
        (if-cases (Ensures HandledValid) (ingress.type == stanza_iq_set)
          (set_query-Valid ingress.mem acl sender q) v)
