-- ===== src/Room/Query/Ranks.antt =====
-- Who may change a room by queries.
use mukite.Common.{
  ℕ, ◌≡◌, refl, Bool, false, not, ◌||◌, Option, none, some, [], ◌==◌, if◌then◌else◌, if-cases,
  if-cases_by, Option-cases, ◌⊎◌, inl, inr, Outcome, ok, fault, ◌>>=◌, Ensures, bind-Ensures, Bytes,
  bytes_eq, arith,
}
use mukite.Buffer.{bpt_null}
use mukite.Acl.{AclConfig}
use mukite.Affiliation.{affil_none, list_at}
use mukite.Participant.{Participant, participants_find_by_jid, participants_find_by_nick}
use mukite.Packet.{
  room_affiliations, affiliations, IncomingPacket, worker_bounce, packet_cleanup, cleanup_to_send,
  cleanup_from_to, cleanup_switch, stanza_iq_get, stanza_iq_set,
}
use mukite.Room.{Room, Routed}
use mukite.Room.Errors.{
  RoomError, iq_bad, external_iq, iq_prohibited, recipient_not_in_room, error_definitions,
}
use mukite.Room.Message.{bounce}
use mukite.Room.Query.Items.{NextItem, no_item, bad_item, item, next_muc_admin_item}
use mukite.Room.Query.Affected.{announce}
use mukite.Room.Query.{
  Handled, reply, refuse, with_rank, affiliations_reply, get_query, set_query, handle_query,
  QueryNode, disco_info, disco_items, muc_admin, muc_owner, is_admin, is_owner, is_moderator,
  finish_query, query_of, query_room, query_occupant, pass_on, asks_vcard, route_iq,
}

-- Whether the sender is an occupant who is a moderator or an owner.
abbrev pub has_rank : Option Participant → Bool
has_rank none = false
has_rank (some p) = is_moderator p || is_owner p

-- The room is as it was, and nobody was affected.
abbrev HandledSame : Room → Handled → Type 0
HandledSame room (reply t data_of r affected) = (r ≡ room) × (affected ≡ [])
HandledSame room (refuse r e) = r ≡ room

abbrev Stays : Room → Outcome Routed → Type 0
Stays room = Ensures (λ r. r.room ≡ room)

bounce-Stays :
    (room : Room) (ingress : IncomingPacket) (e : RoomError) → Stays room (bounce room ingress e)
unfolding bounce
bounce-Stays room ingress e =
    bind-Ensures _ (worker_bounce ingress (error_definitions e) room.node) _ (λ p. refl)

module _ (room : Room) where
  ranked-Same :
      (enough : Participant → Bool) (sender : Option Participant)
      (k : Participant → Outcome Handled)
      → ((p : Participant) → Ensures (HandledSame room) (k p))
      → Ensures (HandledSame room) (with_rank room enough sender k)
  ranked-Same enough none k h = refl
  ranked-Same enough (some p) k h = if-cases (Ensures (HandledSame room)) (enough p) (h p) refl

  -- The guard stops a sender who has no rank.
  moderated-Same :
      (sender : Option Participant) (k : Participant → Outcome Handled)
      → has_rank sender ≡ false
      → Ensures (HandledSame room) (with_rank room is_moderator sender k)
  moderated-Same none k h = refl
  moderated-Same (some p) k h = let low : is_moderator p ≡ false = ground arith in rw low refl

  owned-Same :
      (sender : Option Participant) (k : Participant → Outcome Handled)
      → has_rank sender ≡ false
      → Ensures (HandledSame room) (with_rank room is_owner sender k)
  owned-Same none k h = refl
  owned-Same (some p) k h = let low : is_owner p ≡ false = ground arith in rw low refl

  affiliations_reply-Same : (next : NextItem) → HandledSame room (affiliations_reply room next)
  unfolding affiliations_reply
  affiliations_reply-Same no_item = refl
  affiliations_reply-Same bad_item = refl
  affiliations_reply-Same (item target rest) = by_affiliation target.affiliation
    where
      by_affiliation :
          (o : Option ℕ)
          → HandledSame room (elim o [
            | none ↦ refuse room iq_bad
            | some a ↦
                if a == affil_none
                then refuse room iq_bad
                else reply room_affiliations
                    (affiliations a (list_at room.affiliations a).entries)
                    room
                    []
          ])
      by_affiliation none = refl
      by_affiliation (some a) = if-cases (HandledSame room) (a == affil_none) refl (refl, refl)

  get_query-Same :
      (mem : Bytes) (sender : Option Participant) (q : QueryNode)
      → Ensures (HandledSame room) (get_query mem room sender q)
  unfolding get_query
  get_query-Same mem sender q =
      let P = Ensures (HandledSame room) in
      if-cases P (bytes_eq disco_info q.xmlns) (refl, refl)
        (if-cases P (bytes_eq disco_items q.xmlns)
          (if-cases (HandledSame room) room.flags.public_participants (refl, refl) refl)
          (if-cases P (bytes_eq muc_admin q.xmlns)
            (if-cases P q.is_empty refl (
              ranked-Same is_admin sender _
                (λ p. bind-Ensures _ (next_muc_admin_item mem q.node) _ affiliations_reply-Same)))
            (if-cases P (bytes_eq muc_owner q.xmlns)
              (ranked-Same is_owner sender _ (λ p. (refl, refl))) refl)))

  set_query-Same :
      (mem : Bytes) (acl : AclConfig) (sender : Option Participant) (q : QueryNode)
      → has_rank sender ≡ false
      → Ensures (HandledSame room) (set_query mem acl room sender q)
  unfolding set_query
  set_query-Same mem acl sender q h =
      let P = Ensures (HandledSame room) in
      if-cases P (bytes_eq muc_admin q.xmlns)
        (if-cases P q.is_empty refl (moderated-Same sender _ h))
        (if-cases P (bytes_eq muc_owner q.xmlns)
          (if-cases P q.is_empty refl (owned-Same sender _ h)) refl)

  handle_query-Same :
      (acl : AclConfig) (ingress : IncomingPacket) (sender : Option Participant)
      (q : Option QueryNode)
      → (has_rank sender ≡ false) ⊎ (ingress.type ≡ stanza_iq_get)
      → Ensures (HandledSame room) (handle_query acl room ingress sender q)
  unfolding handle_query
  handle_query-Same acl ingress sender none h = refl
  handle_query-Same acl ingress sender (some q) (inl low) =
      let P = Ensures (HandledSame room) in
      if-cases P (ingress.type == stanza_iq_get) (get_query-Same ingress.mem sender q) (
        if-cases P (ingress.type == stanza_iq_set) (set_query-Same ingress.mem acl sender q low)
          refl)
  handle_query-Same acl ingress sender (some q) (inr get) =
      rw get (get_query-Same ingress.mem sender q)

  finish_query-Stays :
      (ingress : IncomingPacket) (m : Outcome Handled)
      → Ensures (HandledSame room) m
      → Stays room (m >>= finish_query ingress)
  unfolding finish_query announce
  finish_query-Stays ingress (fault f) h = tt
  finish_query-Stays ingress (ok (refuse r e)) h = rw h (bounce-Stays room ingress e)
  finish_query-Stays ingress (ok (reply t data_of r affected)) h =
      bind-Ensures _ (packet_cleanup ingress cleanup_switch) _ (λ p. rw h.1 h.0)

module _ (room : Room) (ingress : IncomingPacket) where
  pass_on-Stays :
      (sender receiver : Participant) → Stays room (pass_on room ingress sender receiver)
  unfolding pass_on
  pass_on-Stays sender receiver =
      bind-Ensures _ (cleanup_to_send ingress cleanup_from_to) _
        (λ p. bind-Ensures _ (asks_vcard p) _ (λ vcard. refl))

  query_occupant-Stays :
      (sender : Option Participant) → Stays room (query_occupant room ingress sender)
  unfolding query_occupant
  query_occupant-Stays none = bounce-Stays room ingress external_iq
  query_occupant-Stays (some sender) =
      if-cases (Stays room) (not room.flags.iq_proxy) (bounce-Stays room ingress iq_prohibited)
        (elim (Option-cases
          (participants_find_by_nick room.participants.entries ingress.proxy_to.resource)) [
            | inl missing ↦ rw missing (bounce-Stays room ingress recipient_not_in_room)
            | inr (receiver, e) ↦ rw e (pass_on-Stays sender receiver)
          ])

-- A query that does not fault leaves the room as it is, if its sender is no occupant or is neither a
-- moderator nor an owner, or if it is of the type get, or goes to an occupant.
pub route_iq-by_rank :
    (room : Room) (ingress : IncomingPacket) (acl : AclConfig)
    → (has_rank (participants_find_by_jid room.participants.entries ingress.real_from) ≡ false)
      ⊎ ((ingress.type ≡ stanza_iq_get) ⊎ (bpt_null ingress.proxy_to.resource ≡ false))
    → Ensures (λ r. r.room ≡ room) (route_iq room ingress acl)
unfolding route_iq query_room
route_iq-by_rank room ingress acl h =
    let sender = participants_find_by_jid room.participants.entries ingress.real_from in
    if-cases_by (Stays room) (not (bpt_null ingress.proxy_to.resource))
      (λ named. query_occupant-Stays room ingress sender)
      (λ to_room. bind-Ensures _ (query_of ingress.mem ingress.inner) _ (λ q.
        finish_query-Stays room ingress (handle_query acl room ingress sender q)
          (handle_query-Same room acl ingress sender q (reasons to_room h))))
  where
    reasons :
        not (bpt_null ingress.proxy_to.resource) ≡ false
        → (has_rank (participants_find_by_jid room.participants.entries ingress.real_from) ≡ false)
          ⊎ ((ingress.type ≡ stanza_iq_get) ⊎ (bpt_null ingress.proxy_to.resource ≡ false))
        → (has_rank (participants_find_by_jid room.participants.entries ingress.real_from) ≡ false)
          ⊎ (ingress.type ≡ stanza_iq_get)
    reasons e (inl low) = inl low
    reasons e (inr (inl get)) = inr get
    reasons e (inr (inr named)) = absurd (ground arith)
