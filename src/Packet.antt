-- ===== src/Packet.antt =====
-- packet.h, packet.c and the packets of builder.h: a stanza that came in, and one to be sent.
pub mod Parse
pub mod Accepted
pub mod Fuel
pub mod Deliverable
use mukite.Common.{
  ℕ, zero, suc, ◌+◌, ◌-◌, Bool, true, false, ◌&&◌, Option, none, some, List, [], ◌∷◌, Bytes, lit,
  leb, if◌then◌else◌, Outcome, ok, fault, null_pointer, wild_pointer, ◌>>=◌,
}
use mukite.Buffer.{BufferPtr}
use mukite.Jid.{Jid, jid_init}
use mukite.Affiliation.{Affiliation}
use mukite.RoomState.{Room}
use mukite.Xmlfsm.{Span, XmlAttr, slice}

-- The names of stanzas, and their types.
abbrev pub stanza_iq : ℕ
stanza_iq = 1

abbrev pub stanza_iq_get : ℕ
stanza_iq_get = 1

abbrev pub stanza_iq_set : ℕ
stanza_iq_set = 2

abbrev pub stanza_iq_result : ℕ
stanza_iq_result = 3

abbrev pub stanza_message : ℕ
stanza_message = 2

abbrev pub stanza_message_chat : ℕ
stanza_message_chat = 1

abbrev pub stanza_message_groupchat : ℕ
stanza_message_groupchat = 2

abbrev pub stanza_presence : ℕ
stanza_presence = 3

abbrev pub stanza_presence_unavailable : ℕ
stanza_presence_unavailable = 1

abbrev pub stanza_error : ℕ
stanza_error = 100

-- `mem` is the block that the stanza stands in; `header`, `inner`, the attributes and the nodes are
-- pointers into it. The identifiers are kept as the bytes that they span.
pub record IncomingPacket : Type 0 where
  pub mem : Bytes
  pub name : ℕ
  pub type : ℕ
  pub real_from : Jid
  pub proxy_to : Jid
  pub header : Option Span
  pub inner : Option Span
  pub from_attr : Option XmlAttr
  pub to_attr : Option XmlAttr
  pub id_attr : Option XmlAttr
  pub type_attr : Option XmlAttr
  pub muc : Option Span
  pub muc_user : Option Span

-- The bytes that a pointer into the block spans now.
abbrev pub bytes_at : Bytes → Option Span → BufferPtr
bytes_at mem none = none
bytes_at mem (some s) = some (slice mem s)

-- `memcpy` to a position of the block, and `memset` from a position on. The spans of a packet lie
-- within its block.
unfoldable pub write_at : ℕ → Bytes → Bytes → Bytes
write_at p bytes [] = []
write_at zero [] (c ∷ mem) = c ∷ mem
write_at zero (b ∷ bytes) (c ∷ mem) = b ∷ write_at zero bytes mem
write_at (suc p) bytes (c ∷ mem) = c ∷ write_at p bytes mem

unfoldable pub fill : ℕ → ℕ → Bytes → Bytes
fill p n [] = []
fill zero zero (c ∷ mem) = c ∷ mem
fill zero (suc n) (c ∷ mem) = 32 ∷ fill zero n mem
fill (suc p) n (c ∷ mem) = c ∷ fill p n mem

-- The bits of a mode of `packet_cleanup`; PACKET_CLEANUP_SWITCH_FROM_TO is the first and the third.
pub record CleanupMode : Type 0 where
  pub from : Bool
  pub to : Bool
  pub switch : Bool
  pub id : Bool

-- PACKET_CLEANUP_FROM | PACKET_CLEANUP_TO
abbrev pub cleanup_from_to : CleanupMode
cleanup_from_to = record { from = true; to = true; switch = false; id = false }

-- PACKET_CLEANUP_TO | PACKET_CLEANUP_SWITCH_FROM_TO
abbrev pub cleanup_bounce : CleanupMode
cleanup_bounce = record cleanup_from_to { switch = true }

-- PACKET_CLEANUP_SWITCH_FROM_TO
abbrev pub cleanup_switch : CleanupMode
cleanup_switch = record cleanup_bounce { to = false }

-- A node is blanked, if it is there.
unfoldable pub blank_span : Option Span → Bytes → Bytes
unfolding fill
blank_span none mem = mem
blank_span (some s) mem = fill s.start (s.stop - s.start) mem

-- An attribute is blanked, its closing quote included. Without one, null is written through.
unfoldable pub blank_attr : Option XmlAttr → Bytes → Outcome Bytes
unfolding fill
blank_attr none mem = fault null_pointer
blank_attr (some a) mem = ok (fill a.name.start (a.value.stop - a.name.start + 1) mem)

unfoldable pub blank_type : Option XmlAttr → Bytes → Bytes
unfolding fill
blank_type none mem = mem
blank_type (some a) mem = fill a.name.start (a.value.stop - a.name.start + 1) mem

-- `from` becomes `to`.
unfoldable pub switch_attr : Option XmlAttr → Bytes → Outcome Bytes
unfolding write_at
switch_attr none mem = fault null_pointer
switch_attr (some a) mem = ok (write_at a.name.start (lit "  to") mem)

-- `packet_cleanup`
unfoldable pub packet_cleanup : IncomingPacket → CleanupMode → Outcome IncomingPacket
unfolding blank_span blank_attr blank_type switch_attr
packet_cleanup p mode = do
  let nodes = blank_type p.type_attr (blank_span p.muc_user (blank_span p.muc p.mem))
  ids ← (if mode.id then blank_attr p.id_attr nodes else ok nodes)
  tos ← (if mode.to then blank_attr p.to_attr ids else ok ids)
  froms ←
      (if mode.switch && mode.from
        then switch_attr p.from_attr tos
        else if mode.from
        then blank_attr p.from_attr tos
        else ok tos)
  ok (record p { mem = froms })

-- XMPPError
pub record XmppError : Type 0 where
  pub code : Bytes
  pub type : Bytes
  pub name : Bytes
  pub text : Bytes

-- The bits of `status_codes`.
pub record StatusCodes : Type 0 where
  pub non_anonymous : Bool
  pub self_presence : Bool
  pub logging_enabled : Bool
  pub room_created : Bool
  pub nickname_enforced : Bool
  pub banned : Bool
  pub nickname_changed : Bool
  pub kicked : Bool
  pub nonmember_removed : Bool

abbrev pub no_status : StatusCodes
no_status = record {
  non_anonymous = false;
  self_presence = false;
  logging_enabled = false;
  room_created = false;
  nickname_enforced = false;
  banned = false;
  nickname_changed = false;
  kicked = false;
  nonmember_removed = false;
}

-- `MucAdminItem` as it is sent.
pub record MucItem : Type 0 where
  pub affiliation : ℕ
  pub role : ℕ
  pub jid : Jid
  pub nick : BufferPtr
  pub reason_node : BufferPtr

-- The counters of `StanzaQueueStats`.
pub record StanzaQueueStats : Type 0 where
  pub overflows : ℕ
  pub underflows : ℕ
  pub realloc_enlarges : ℕ
  pub realloc_shortens : ℕ
  pub mallocs : ℕ
  pub data_pushes : ℕ
  pub data_pops : ℕ
  pub free_pushes : ℕ
  pub free_pops : ℕ

-- The counters of `RingBufferStats`.
pub record RingBufferStats : Type 0 where
  pub overflows : ℕ
  pub underflows : ℕ
  pub reads : ℕ
  pub writes : ℕ

-- The fields of `struct utsname` that are sent.
pub record Uname : Type 0 where
  pub sysname : Bytes
  pub machine : Bytes
  pub release : Bytes

-- The union `sys_data`, by what the builder reads of it. It reads nothing of `rooms`.
pub data SysData : Type 0 where
  nothing : SysData
  error : XmppError → SysData
  presence : MucItem → StatusCodes → BufferPtr → SysData
  room : Room → SysData
  affiliations : ℕ → List Affiliation → SysData
  uname : Uname → SysData
  stats : RingBufferStats → StanzaQueueStats → SysData

-- `iq_type`; `no_iq` is 0.
pub data IqType : Type 0 where
  no_iq iq_version iq_last iq_time iq_stats iq_empty iq_vcard iq_disco_info iq_disco_items : IqType
  room_disco_info room_disco_items room_affiliations room_config : IqType

-- `BuilderPacket`; a packet that is handed to `worker_send`.
pub record BuilderPacket : Type 0 where
  pub name : ℕ
  pub type : ℕ
  pub from_nick : BufferPtr
  pub from_host : BufferPtr
  pub from_node : BufferPtr
  pub to : Jid
  pub iq_type : IqType
  pub delay : ℕ
  pub header : BufferPtr
  pub user_data : BufferPtr
  pub sys_data : SysData

abbrev pub empty_packet : BuilderPacket
empty_packet = record {
  name = 0;
  type = 0;
  from_nick = none;
  from_host = none;
  from_node = none;
  to = jid_init;
  iq_type = no_iq;
  delay = 0;
  header = none;
  user_data = none;
  sys_data = nothing;
}

-- The packet, if its inner part can be handed to the builder. An inner part that ends before it starts
-- has a negative size, which BUF_PUSH passes to `memcpy`.
abbrev pub pushed_inner : IncomingPacket → Option Span → Outcome IncomingPacket
pushed_inner p none = ok p
pushed_inner p (some s) = if leb s.start s.stop then ok p else fault wild_pointer

-- `packet_cleanup` of a stanza whose inner part goes into a packet that is sent.
unfoldable pub cleanup_to_send : IncomingPacket → CleanupMode → Outcome IncomingPacket
unfolding packet_cleanup
cleanup_to_send ingress mode = do p ← packet_cleanup ingress mode; pushed_inner p p.inner

-- `worker_bounce`: the stanza goes back to its sender with an error.
unfoldable pub worker_bounce : IncomingPacket → XmppError → BufferPtr → Outcome BuilderPacket
unfolding cleanup_to_send
worker_bounce ingress e node = do
  p ← cleanup_to_send ingress cleanup_bounce
  ok (record empty_packet {
    name = p.name;
    type = stanza_error;
    from_node = node;
    header = bytes_at p.mem p.header;
    user_data = bytes_at p.mem p.inner;
    sys_data = error e;
  })
