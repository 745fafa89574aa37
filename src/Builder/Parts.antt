-- ===== src/Builder/Parts.antt =====
-- What the parts of builder.c that need no room write.
use mukite.Common.{
  ◌≡◌, refl, sym, ap, Bool, true, false, none, some, append_assoc, inl, inr, ◌∷◌, ◌++◌, Bytes, lit,
  if◌then◌else◌, Bool-cases, Outcome, ok, ◌>>=◌,
}
use mukite.Buffer.{BufferPtr, contents}
use mukite.Jid.{Jid, jid_empty, jid_str}
use mukite.Packet.{MucItem, StatusCodes, XmppError}
use mukite.Builder.{
  Push, push_if, push_status, affiliation_name, role_name, push_name, push_jid, push_nick,
  push_reason, push_statuses, build_presence_mucadm, build_error,
}
use mukite.Builder.Tree.{Tree, nil, print, quote}
use mukite.Builder.Reference.{
  jid_value, error_tree, item_tree, status, status_tree, item_attrs, muc_user_tree,
}
use mukite.Builder.Writes.{Writes, skip-Writes, push-Writes, ◌▷◌, as_text}

-- An attribute, after the quote that closes the one before it.
abbrev pub after_quote : Bytes → BufferPtr → Bytes → Bytes
after_quote n none r = r
after_quote n (some v) r = quote ∷ b' ' ∷ (n ++ (b'=' ∷ quote ∷ (v ++ r)))

pub build_error-Writes : (e : XmppError) → Writes (build_error e) (print (error_tree e))
unfolding build_error
build_error-Writes e =
    as_text
      (push-Writes _
        ▷ push-Writes e.code
        ▷ push-Writes _
        ▷ push-Writes e.type
        ▷ push-Writes _
        ▷ push-Writes e.name
        ▷ push-Writes _
        ▷ push-Writes e.text
        ▷ push-Writes _)
      (λ r. refl)

pub push_if-Writes : (b : BufferPtr) → Writes (push_if b) (λ r. contents b ++ r)
unfolding push_if
push_if-Writes none = skip-Writes
push_if-Writes (some bytes) = push-Writes bytes

-- A test in the code, and in what it writes.
pub if-Writes :
    (b : Bool) {m k : Push} (s t : Tree)
    → Writes m (print s)
    → Writes k (print t)
    → Writes (if b then m else k) (print (if b then s else t))
if-Writes true s t v w = v
if-Writes false s t v w = w

pub push_name-Writes :
    (name : Outcome Bytes) (bytes : Bytes)
    → name ≡ ok bytes
    → Writes (push_name name) (λ r. bytes ++ r)
unfolding push_name
push_name-Writes name bytes e = rw (e, ◌>>=◌) (push-Writes bytes)

push_jid-Writes : (j : Jid) → Writes (push_jid j) (after_quote (lit "jid") (jid_value j))
unfolding push_jid
push_jid-Writes j = elim (Bool-cases (jid_empty j)) [
  | inl e ↦ rw e skip-Writes
  | inr e ↦ rw e (as_text (push-Writes _ ▷ push-Writes (jid_str j)) (λ r. refl))
]

push_nick-Writes : (n : BufferPtr) → Writes (push_nick n) (after_quote (lit "nick") n)
unfolding push_nick
push_nick-Writes none = skip-Writes
push_nick-Writes (some n) = as_text (push-Writes _ ▷ push-Writes n) (λ r. refl)

-- The end of an item.
abbrev item_end : BufferPtr → Bytes → Bytes
item_end none r = quote ∷ b'/' ∷ b'>' ∷ r
item_end (some reason) r = quote ∷ b'>' ∷ (reason ++ (lit "</item>" ++ r))

push_reason-Writes : (reason : BufferPtr) → Writes (push_reason reason) (item_end reason)
unfolding push_reason
push_reason-Writes none = as_text (push-Writes _) (λ r. refl)
push_reason-Writes (some reason) =
    as_text (push-Writes _ ▷ push-Writes reason ▷ push-Writes _) (λ r. refl)

push_status-Writes :
    (value : Bool) (code : Bytes) {m : Push} (t : Tree)
    → Writes m (print t)
    → Writes (push_status value code m) (print (status value code t))
unfolding push_status
push_status-Writes value code t w =
    if-Writes value _ t
      (as_text (push-Writes _)
        (λ r. ap (λ x. lit "<status code='" ++ x) (sym (append_assoc code (lit "'/>") r))))
      w

push_statuses-Writes : (s : StatusCodes) → Writes (push_statuses s) (print (status_tree s))
unfolding push_statuses
push_statuses-Writes s = push_status-Writes s.non_anonymous (lit "100") _ (
    push_status-Writes s.self_presence (lit "110") _ (
      push_status-Writes s.logging_enabled (lit "170") _ (
        push_status-Writes s.room_created (lit "201") _ (
          push_status-Writes s.nickname_enforced (lit "210") _ (
            push_status-Writes s.banned (lit "301") _ (
              push_status-Writes s.nickname_changed (lit "303") _ (
                push_status-Writes s.kicked (lit "307") _
                  (push_status-Writes s.nonmember_removed (lit "321") nil skip-Writes))))))))

item_text :
    (affiliation role : Bytes) (j nick reason : BufferPtr) (r : Bytes)
    → print (item_tree (item_attrs affiliation role j nick) reason) r
      ≡ lit "<item affiliation='"
        ++ (affiliation
            ++ (lit "' role='"
                ++ (role
                    ++ after_quote
                        (lit "jid")
                        j
                        (after_quote (lit "nick") nick (item_end reason r)))))
item_text a b none none none r = refl
item_text a b none none (some x) r = refl
item_text a b none (some n) none r = refl
item_text a b none (some n) (some x) r = refl
item_text a b (some j) none none r = refl
item_text a b (some j) none (some x) r = refl
item_text a b (some j) (some n) none r = refl
item_text a b (some j) (some n) (some x) r = refl

pub build_presence_mucadm-Writes :
    (item : MucItem) (codes : StatusCodes) (resume : BufferPtr) (affiliation role : Bytes)
    → affiliation_name item.affiliation ≡ ok affiliation
    → role_name item.role ≡ ok role
    → Writes
        (build_presence_mucadm item codes resume)
        (print (muc_user_tree affiliation role item codes resume))
unfolding build_presence_mucadm
build_presence_mucadm-Writes item codes resume affiliation role a b =
    as_text
      (push-Writes _
        ▷ push_name-Writes (affiliation_name item.affiliation) affiliation a
        ▷ push-Writes _
        ▷ push_name-Writes (role_name item.role) role b
        ▷ push_jid-Writes item.jid
        ▷ push_nick-Writes item.nick
        ▷ push_reason-Writes item.reason_node
        ▷ push_statuses-Writes codes
        ▷ push_if-Writes resume
        ▷ push-Writes _)
      (λ r.
        ap (λ x. lit "<x xmlns='http://jabber.org/protocol/muc#user'>" ++ x)
          (item_text affiliation role (jid_value item.jid) item.nick item.reason_node _))
