-- ===== src/Participant/Unique.antt =====
-- How many participants carry a nick, or a full JID.
use mukite.Common.{
  ℕ, ◌≡◌, refl, inl, inr, none, List, [], ◌∷◌, arith, ◌==◌, if◌then◌else◌, true, false, Bool-cases,
  bytes_eq, Bytes,
}
use mukite.Buffer.{BufferPtr, contents, bpt_null}
use mukite.Jid.{Jid, jid_cmp, jid_full, jid_node_host}
use mukite.Jid.Compare.{jid_cmp_congr, jid_cmp-full}
use mukite.Participant.{
  Participant, find_by_jid, participants_find_by_jid, participants_find_by_nick, find_mode,
}
use mukite.Participant.Nodes.{sum_of}

abbrev pub nick_hit : Bytes → Participant → ℕ
nick_hit n p = if bytes_eq (contents p.nick) n then 1 else 0

abbrev pub jid_hit : Jid → Participant → ℕ
jid_hit j p = if jid_cmp p.jid j jid_full == 0 then 1 else 0

pub find_by_nick-none :
    (ps : List Participant) (nick : BufferPtr)
    → participants_find_by_nick ps nick ≡ none
    → sum_of (nick_hit (contents nick)) ps ≡ 0
unfolding participants_find_by_nick
find_by_nick-none [] nick h = refl
find_by_nick-none (p ∷ ps) nick h = ground (arith, find_by_nick-none ps nick)

by_full :
    (ps : List Participant) (j : Jid) → find_by_jid ps j jid_full ≡ none → sum_of (jid_hit j) ps ≡ 0
unfolding find_by_jid
by_full [] j h = refl
by_full (p ∷ ps) j h = ground (arith, by_full ps j)

by_account :
    (ps : List Participant) (j : Jid)
    → find_by_jid ps j jid_node_host ≡ none
    → sum_of (jid_hit j) ps ≡ 0
unfolding find_by_jid
by_account [] j h = refl
by_account (p ∷ ps) j h = ground (arith, by_account ps j, jid_cmp-full p.jid j)

-- Where the search by JID finds nobody, nobody carries the full JID.
pub find_by_jid-none :
    (ps : List Participant) (j : Jid)
    → participants_find_by_jid ps j ≡ none
    → sum_of (jid_hit j) ps ≡ 0
unfolding participants_find_by_jid
find_by_jid-none ps j h = elim (Bool-cases (bpt_null j.resource)) [
  | inl bare ↦ by_account ps j (rw (← mode_of bare) h)
  | inr full ↦ by_full ps j (rw (← mode_of_full full) h)
]
  where
    mode_of : bpt_null j.resource ≡ true → find_mode j ≡ jid_node_host
    mode_of e = rw e

    mode_of_full : bpt_null j.resource ≡ false → find_mode j ≡ jid_full
    mode_of_full e = rw e

pub jid_hits_congr :
    (ps : List Participant) (i j : Jid)
    → jid_cmp i j jid_full ≡ 0
    → sum_of (jid_hit i) ps ≡ sum_of (jid_hit j) ps
jid_hits_congr [] i j h = refl
jid_hits_congr (p ∷ ps) i j h =
    ground (arith, jid_hits_congr ps i j h, jid_cmp_congr jid_full i j p.jid refl h)
