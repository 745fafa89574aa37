-- ===== src/Builder.antt =====
-- builder.h, and of builder.c the macros that push text into the output buffer, and the parts of a
-- stanza that need no room.
pub mod Times
pub mod RoomParts
pub mod Form
pub mod Stanza
pub mod StanzaTree
pub mod Writes
pub mod Early
pub mod Tree
pub mod Reference
pub mod Parts
pub mod RoomText
pub mod FormText
pub mod FormTree
pub mod StanzaText
pub mod ContentText
pub mod Exact
pub mod Statuses
pub mod Decimal
use mukite.Common.{
  ℕ, zero, suc, ◌+◌, ◌-◌, ◌/◌, ◌%◌, Bool, true, false, Option, none, some, List, [], ◌∷◌, ◌++◌,
  Bytes, lit, length, take, ◌==◌, ltb, if◌then◌else◌, Outcome, ok, fault, null_pointer,
  wild_pointer, ◌>>=◌,
}
use mukite.Buffer.{BufferPtr, contents, bpt_null, word}
use mukite.Jid.{Jid, jid_empty, jid_str}
use mukite.Packet.{MucItem, StatusCodes, XmppError}

-- `text` is what stands between `data` and `data_end`, and `size` is the room from `data` to `end`.
pub record BuilderBuffer : Type 0 where
  pub text : Bytes
  pub size : ℕ

-- A piece of code that pushes: the buffer it leaves, and whether it went on to its end.
abbrev pub Push : Type 0
Push = BuilderBuffer → Outcome (BuilderBuffer × Bool)

abbrev pub skip : Push
skip b = ok (b, true)

-- The code after a push is reached unless the push returned FALSE.
abbrev pub go_on : Push → BuilderBuffer × Bool → Outcome (BuilderBuffer × Bool)
go_on k (b, true) = k b
go_on k (b, false) = ok (b, false)

infixr 5 ◌>>◌
unfoldable pub ◌>>◌ : Push → Push → Push
(m >> k) b = m b >>= go_on k

-- BUF_PUSH, by the bytes that are pushed; BUF_PUSH_BUF, BUF_PUSH_STR, BUF_PUSH_BPT and
-- BUF_PUSH_LITERAL are calls of it. A null pointer is pushed as no bytes.
unfoldable pub push : Bytes → Push
push bytes b =
    if ltb b.size (length b.text + length bytes)
    then ok (b, false)
    else ok (record b { text = b.text ++ bytes }, true)

-- BUF_PUSH_IFBPT
unfoldable pub push_if : BufferPtr → Push
push_if none = skip
push_if (some bytes) = push bytes

-- The digits of a number below 10 ^ n, in front of others.
unfoldable pub digits_before : ℕ → ℕ → Bytes → Bytes
digits_before zero n rest = rest
digits_before (suc k) n rest =
    let further = digits_before k (n / 10) ((b'0' + n % 10) ∷ rest) in
    if ltb n 10 then (b'0' + n) ∷ rest else further

-- What "%d" prints for a word of 32 bits: ten digits at most, after a sign.
unfoldable pub decimal : ℕ → Bytes
decimal w =
    if ltb w 2147483648 then digits_before 10 w [] else b'-' ∷ digits_before 10 (word - w) []

-- What `snprintf` leaves in the room that is left: its last byte is 0, if the text fills it.
unfoldable pub printed : Bytes → ℕ → Bytes
printed shown room = if length shown == room then take (room - 1) shown ++ (0 ∷ []) else shown

-- BUF_PUSH_FMT("%d", value)
unfoldable pub push_fmt : ℕ → Push
push_fmt value b =
    let room = b.size - length b.text in
    if ltb room (length (decimal value))
    then ok (b, false)
    else ok (record b { text = b.text ++ printed (decimal value) room }, true)

-- BUF_PUSH_BOOL
unfoldable pub push_bool : Bool → Push
push_bool value = if value then push (lit "1") else push (lit "0")

-- BUF_PUSH_STATUS, with the code that stands after its `else`.
unfoldable pub push_status : Bool → Bytes → Push → Push
push_status value code otherwise =
    if value then push (lit "<status code='" ++ (code ++ lit "'/>")) else otherwise

-- `affiliation_names`; a value beyond the table reads past its end.
unfoldable pub affiliation_name : ℕ → Outcome Bytes
affiliation_name zero = ok (lit "outcast")
affiliation_name (suc zero) = ok (lit "none")
affiliation_name (suc (suc zero)) = ok (lit "member")
affiliation_name (suc (suc (suc zero))) = ok (lit "admin")
affiliation_name (suc (suc (suc (suc zero)))) = ok (lit "owner")
affiliation_name (suc (suc (suc (suc (suc n))))) = fault wild_pointer

-- `role_names`
unfoldable pub role_name : ℕ → Outcome Bytes
role_name zero = ok (lit "none")
role_name (suc zero) = ok (lit "visitor")
role_name (suc (suc zero)) = ok (lit "participant")
role_name (suc (suc (suc zero))) = ok (lit "moderator")
role_name (suc (suc (suc (suc n)))) = fault wild_pointer

-- BUF_PUSH of an entry of one of the tables.
unfoldable pub push_name : Outcome Bytes → Push
push_name name b = name >>= (λ bytes. push bytes b)

unfoldable pub push_jid : Jid → Push
push_jid j = if jid_empty j then skip else push (lit "' jid='") >> push (jid_str j)

unfoldable pub push_nick : BufferPtr → Push
push_nick none = skip
push_nick (some nick) = push (lit "' nick='") >> push nick

unfoldable pub push_reason : BufferPtr → Push
push_reason none = push (lit "'/>")
push_reason (some reason) = push (lit "'>") >> push reason >> push (lit "</item>")

-- The chain of BUF_PUSH_STATUS: the first status that is set is pushed, and no other.
unfoldable pub push_statuses : StatusCodes → Push
push_statuses s = push_status s.non_anonymous (lit "100") (
    push_status s.self_presence (lit "110") (
      push_status s.logging_enabled (lit "170") (
        push_status s.room_created (lit "201") (
          push_status s.nickname_enforced (lit "210") (
            push_status s.banned (lit "301") (
              push_status s.nickname_changed (lit "303") (
                push_status s.kicked (lit "307")
                  (push_status s.nonmember_removed (lit "321") skip))))))))

-- `build_presence_mucadm`
unfoldable pub build_presence_mucadm : MucItem → StatusCodes → BufferPtr → Push
build_presence_mucadm item codes resume =
    push (lit "<x xmlns='http://jabber.org/protocol/muc#user'><item affiliation='")
    >> push_name (affiliation_name item.affiliation)
    >> push (lit "' role='")
    >> push_name (role_name item.role)
    >> push_jid item.jid
    >> push_nick item.nick
    >> push_reason item.reason_node
    >> push_statuses codes
    >> push_if resume
    >> push (lit "</x>")

-- `build_error`
unfoldable pub build_error : XmppError → Push
build_error e =
    push (lit "<error code='")
    >> push e.code
    >> push (lit "' type='")
    >> push e.type
    >> push (lit "'><")
    >> push e.name
    >> push (
        lit
          " xmlns='urn:ietf:params:xml:ns:xmpp-stanzas'/><text xmlns='urn:ietf:params:xml:ns:xmpp-stanzas'>")
    >> push e.text
    >> push (lit "</text></error>")
