-- ===== src/Room/Message/Ends.antt =====
-- The fuel of `route_message`.
use mukite.Room.Message.Cases.{timed, groupchat-by, private-by, message-by}
use mukite.Common.{
  bind-Terminates, Terminates, lit, Bytes, some, none, [], ◌∷◌, ◌==◌, not, ◌&&◌, ◌-◌, ℕ, Bool-cases,
  Option-cases, inl, inr, Option, List, ltb,
}
use mukite.Room.Errors.{
  no_pm, no_visitors_pm, recipient_not_in_room, traffic_rate, privilege_level, iq_bad,
  no_visitors_public, external_message,
}
use mukite.History.{
  max_history_inner_size, set_inner, HistoryEntriesList, HistoryEntry, history_entries_push,
  remove_extra, recycle,
}
use mukite.Buffer.{BufferPtr, bpt_size}
use mukite.Packet.{bytes_at, IncomingPacket, cleanup_to_send, cleanup_from_to}
use mukite.Xmlfsm.{Span, xmlfsm_skipto_node}
use mukite.Participant.{Participant}
use mukite.Room.{Room, role_moderator, set_participant, user_string_option_limit}
use mukite.Room.Message.{
  broadcast_message, with_subject, set_subject, get_subject_node, route_message,
}
use mukite.Xmlfsm.Siblings.{xmlfsm_skipto_node-Terminates}
use mukite.Room.Presence.Ends.{to_send-Terminates, bounce-Terminates}

remove_extra-Terminates :
    (es : List HistoryEntry) (size max_size : ℕ) → Terminates (remove_extra es size max_size)
unfolding remove_extra
remove_extra-Terminates [] size max_size = elim (Bool-cases (ltb size max_size)) [
  | inl more ↦ rw more tt
  | inr done ↦ rw done tt
]
remove_extra-Terminates (e ∷ es) size max_size = elim (Bool-cases (ltb size max_size)) [
  | inl more ↦ rw more (remove_extra-Terminates es (size - 1) max_size)
  | inr done ↦ rw done tt
]

recycle-Terminates :
    (es : List HistoryEntry) (size max_size : ℕ) → Terminates (recycle es size max_size)
unfolding recycle
recycle-Terminates [] size max_size = tt
recycle-Terminates (e ∷ es) size max_size = tt

push-Terminates : (l : HistoryEntriesList) → Terminates (history_entries_push l)
unfolding history_entries_push
push-Terminates l =
    bind-Terminates (remove_extra l.entries l.size l.max_size) _
      (remove_extra-Terminates l.entries l.size l.max_size)
      (λ r. elim (Bool-cases (l.max_size == 0)) [
        | inl off ↦ rw off tt
        | inr on ↦ rw on (elim (Bool-cases (ltb r.1 l.max_size)) [
          | inl free ↦ rw free tt
          | inr full ↦ rw full (recycle-Terminates r.0 r.1 l.max_size)
        ])
      ])

set_inner-Terminates :
    (l : HistoryEntriesList) (e : Option HistoryEntry) (b : BufferPtr)
    → Terminates (set_inner l e b)
unfolding set_inner
set_inner-Terminates l none b = elim (Bool-cases (ltb max_history_inner_size (bpt_size b))) [
  | inl long ↦ rw long tt
  | inr fits ↦ rw fits tt
]
set_inner-Terminates l (some e) b = tt

broadcast-Terminates :
    (room : Room) (ingress : IncomingPacket) (p : Participant)
    → Terminates (broadcast_message room ingress p)
unfolding broadcast_message
broadcast-Terminates room ingress p =
    bind-Terminates (cleanup_to_send ingress cleanup_from_to) _ (to_send-Terminates ingress) (λ q.
      bind-Terminates (history_entries_push room.history) _ (push-Terminates room.history) (λ h.
        bind-Terminates (set_inner h.0 h.1 (bytes_at q.mem q.inner)) _
          (set_inner-Terminates h.0 h.1 (bytes_at q.mem q.inner)) (λ l. tt)))

subject-Terminates :
    (room : Room) (ingress : IncomingPacket) (p : Participant) (s : Option Span)
    → Terminates (with_subject room ingress p s)
unfolding with_subject
subject-Terminates room ingress p none = broadcast-Terminates room ingress p
subject-Terminates room ingress p (some s) =
    elim (Bool-cases (ltb p.role role_moderator && not room.flags.change_subject)) [
      | inl low ↦ rw low (bounce-Terminates room ingress privilege_level)
      | inr may ↦ rw may (elim (Bool-cases (ltb user_string_option_limit (s.stop - s.start))) [
        | inl long ↦ rw long (bounce-Terminates room ingress iq_bad)
        | inr fits ↦ rw fits (broadcast-Terminates (set_subject room p ingress s) ingress p)
      ])
    ]

get_subject_node-Terminates :
    (mem : Bytes) (inner : Option Span) → Terminates (get_subject_node mem inner)
unfolding get_subject_node
get_subject_node-Terminates mem none = tt
get_subject_node-Terminates mem (some inner) =
    bind-Terminates (xmlfsm_skipto_node (lit "subject") mem inner) _
      (xmlfsm_skipto_node-Terminates (lit "subject") mem inner)
      (λ found. elim (Option-cases found) [ inl missing ↦ rw missing tt | inr (node, e) ↦ rw e tt ])

-- Whatever the room, the stanza and its block of memory are, the loops of `route_message` over the nodes of
-- a message end within the rounds that the model gives them.
pub route_message-Terminates :
    (room : Room) (ingress : IncomingPacket) (ticks limit : ℕ)
    → Terminates (route_message room ingress ticks limit)
route_message-Terminates room ingress ticks limit =
    let refused = bounce-Terminates room ingress in
    message-by Terminates room ingress ticks limit (refused external_message)
      (λ p e to_room.
        groupchat-by Terminates room ingress ticks limit p (refused no_visitors_public)
          (refused traffic_rate)
          (bind-Terminates (get_subject_node ingress.mem ingress.inner) _
            (get_subject_node-Terminates ingress.mem ingress.inner)
            (λ s.
              subject-Terminates (set_participant room (timed p ticks)) ingress (timed p ticks) s)))
      (λ p e to_nick.
        private-by Terminates room ingress p (refused recipient_not_in_room)
          (refused no_visitors_pm) (refused no_pm)
          (λ r e.
            bind-Terminates (cleanup_to_send ingress cleanup_from_to) _ (to_send-Terminates ingress)
              (λ q. tt)))
