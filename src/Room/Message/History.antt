-- ===== src/Room/Message/History.antt =====
-- What the history does to messages to the room.
use mukite.Room.Message.Cases.{timed, groupchat-by, message-by}
use mukite.Common.{
  ◌∙◌, sym, true, false, ◌≡◌, Ensures, bind-Ensures, Ensures-map, ◌-◌, ℕ, refl, ◌<◌, Bool-cases,
  not, inl, inr, Option, none, some, List, [], ◌∷◌, arith, ltb, ◌&&◌, fault, null_pointer,
}
use mukite.Buffer.{bpt_null}
use mukite.Xmlfsm.{Span}
use mukite.Participant.{Participant}
use mukite.History.{HistoryEntriesList, HistoryEntry, history_entries_push, remove_extra}
use mukite.Packet.{IncomingPacket, BuilderPacket, cleanup_to_send, cleanup_from_to, stanza_error}
use mukite.Room.{Room, Routed, role_moderator, set_participant, user_string_option_limit}
use mukite.Room.Errors.{
  RoomError, traffic_rate, privilege_level, iq_bad, no_visitors_public, external_message,
}
use mukite.Room.Message.{
  bounce, broadcast_message, with_subject, set_subject, get_subject_node, route_message,
}
use mukite.Room.Message.Private.{bounce-Bounced}

-- A history with room for an entry is emptied through null.
remove_extra-faults :
    (es : List HistoryEntry) (size max_size : ℕ)
    → size < max_size
    → remove_extra es size max_size ≡ fault null_pointer
unfolding remove_extra
remove_extra-faults [] size max_size h = ground arith
remove_extra-faults (e ∷ es) size max_size h =
    ground (arith, remove_extra-faults es (size - 1) max_size (omega arith))

push-faults :
    (l : HistoryEntriesList) → l.size < l.max_size → history_entries_push l ≡ fault null_pointer
unfolding history_entries_push
push-faults l h = rw (remove_extra-faults l.entries l.size l.max_size h) refl

broadcast-faults :
    (room : Room) (ingress : IncomingPacket) (p : Participant) (P : Routed → Type 0)
    → room.history.size < room.history.max_size
    → Ensures P (broadcast_message room ingress p)
unfolding broadcast_message
broadcast-faults room ingress p P h =
    bind-Ensures _ (cleanup_to_send ingress cleanup_from_to) _
      (λ q. rw (push-faults room.history h) tt)

-- One packet is sent, an error.
pub record OnlyError (l : Routed) : Type 0 where
  pub packet : BuilderPacket
  pub sent : l.sent ≡ packet ∷ []
  pub type : packet.type ≡ stanza_error

bounce-OnlyError :
    (room : Room) (ingress : IncomingPacket) (e : RoomError)
    → Ensures OnlyError (bounce room ingress e)
bounce-OnlyError room ingress e =
    Ensures-map _ _ (bounce room ingress e)
      (λ l b. record { packet = b.packet; sent = b.sent; type = b.type })
      (bounce-Bounced room ingress e)

subject-OnlyError :
    (room : Room) (ingress : IncomingPacket) (p : Participant) (s : Option Span)
    → room.history.size < room.history.max_size
    → Ensures OnlyError (with_subject room ingress p s)
unfolding with_subject
subject-OnlyError room ingress p none h = broadcast-faults room ingress p OnlyError h
subject-OnlyError room ingress p (some s) h =
    elim (Bool-cases (ltb p.role role_moderator && not room.flags.change_subject)) [
      | inl low ↦ rw low (bounce-OnlyError room ingress privilege_level)
      | inr may ↦ rw may (elim (Bool-cases (ltb user_string_option_limit (s.stop - s.start))) [
        | inl long ↦ rw long (bounce-OnlyError room ingress iq_bad)
        | inr fits ↦ rw fits (broadcast-faults (set_subject room p ingress s) ingress p OnlyError h)
      ])
    ]

-- As long as the room's history holds fewer entries than its limit, no message to the room is broadcast:
-- a call that does not fault sends nothing but one error.
pub route_message-unfilled_history :
    (room : Room) (ingress : IncomingPacket) (ticks limit : ℕ)
    → room.history.size < room.history.max_size
    → bpt_null ingress.proxy_to.resource ≡ true
    → Ensures OnlyError (route_message room ingress ticks limit)
route_message-unfilled_history room ingress ticks limit h empty =
    message-by (Ensures OnlyError) room ingress ticks limit
      (bounce-OnlyError room ingress external_message)
      (λ p e to_room.
        groupchat-by (Ensures OnlyError) room ingress ticks limit p
          (bounce-OnlyError room ingress no_visitors_public)
          (bounce-OnlyError room ingress traffic_rate)
          (bind-Ensures _ (get_subject_node ingress.mem ingress.inner) _ (λ s.
            subject-OnlyError (set_participant room (timed p ticks)) ingress (timed p ticks) s h)))
      (λ p e to_nick. absurd (true-false (sym empty ∙ to_nick)))
  where
    true-false : true ≡ false → ⊥
    true-false e = cc
