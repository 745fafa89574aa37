-- ===== src/Room/Query/Alike.antt =====
-- Occupants who keep their addresses, JIDs and nicks, in the loops of `route_iq`.
use mukite.Common.{
  ℕ, ◌+◌, ◌≡◌, refl, sym, ap₂, subst, Bool, inl, inr, List, [], ◌∷◌, arith, length, ◌==◌,
  Bool-cases, Outcome, ok, fault, if-cases, ◌>>=◌, Ensures, bind-Ensures, Bytes,
}
use mukite.Buffer.{BufferPtr}
use mukite.Jid.{Jid}
use mukite.Acl.{AclConfig}
use mukite.Affiliation.{Affiliations, affiliationss_get_by_jid, affiliations_by_cast}
use mukite.Participant.{Participant, participant_set_affected}
use mukite.Participant.Nodes.{Below, sum_of}
use mukite.Participant.Unique.{nick_hit, jid_hit}
use mukite.Room.{ParticipantsList}
use mukite.Room.Valid.{IsValid}
use mukite.Room.Query.Admin.{reaffiliated, reaffiliate}
use mukite.Room.Query.Owner.{mark_where}

-- The same occupant.
pub record Same (p q : Participant) : Type 0 where
  pub id : q.id ≡ p.id
  pub jid : q.jid ≡ p.jid
  pub nick : q.nick ≡ p.nick

pub self : (p : Participant) → Same p p
self p = record { id = refl; jid = refl; nick = refl }

-- The same occupants, in the same order.
abbrev pub Alike : List Participant → List Participant → Type 0
Alike [] [] = Unit {0}
Alike [] (q ∷ qs) = ⊥
Alike (p ∷ ps) [] = ⊥
Alike (p ∷ ps) (q ∷ qs) = Same p q × Alike ps qs

pub Alike-refl : (ps : List Participant) → Alike ps ps
Alike-refl [] = tt
Alike-refl (p ∷ ps) = (self p, Alike-refl ps)

length-Alike : (ps qs : List Participant) → Alike ps qs → length qs ≡ length ps
length-Alike [] [] h = refl
length-Alike [] (q ∷ qs) h = absurd h
length-Alike (p ∷ ps) [] h = absurd h
length-Alike (p ∷ ps) (q ∷ qs) h = omega (arith, length-Alike ps qs h.1)

Below-Alike : (n : ℕ) (ps qs : List Participant) → Alike ps qs → Below n ps → Below n qs
Below-Alike n [] [] h b = tt
Below-Alike n [] (q ∷ qs) h b = absurd h
Below-Alike n (p ∷ ps) [] h b = absurd h
Below-Alike n (p ∷ ps) (q ∷ qs) h b = (
  omega (arith, h.0.id, b.0),
  subst (λ m. Below m qs) (sym h.0.id) (Below-Alike p.id ps qs h.1 b.1),
)

sum-Alike :
    (f : Participant → ℕ) (ps qs : List Participant)
    → ((p q : Participant) → Same p q → f q ≡ f p)
    → Alike ps qs
    → sum_of f qs ≡ sum_of f ps
sum-Alike f [] [] same h = refl
sum-Alike f [] (q ∷ qs) same h = absurd h
sum-Alike f (p ∷ ps) [] same h = absurd h
sum-Alike f (p ∷ ps) (q ∷ qs) same h = ap₂ (◌+◌) (same p q h.0) (sum-Alike f ps qs same h.1)

nick_hit-Same : (n : Bytes) (p q : Participant) → Same p q → nick_hit n q ≡ nick_hit n p
nick_hit-Same n p q s = rw s.nick refl

jid_hit-Same : (j : Jid) (p q : Participant) → Same p q → jid_hit j q ≡ jid_hit j p
jid_hit-Same j p q s = rw s.jid refl

pub Alike-IsValid :
    (l : ParticipantsList) (next_id : ℕ) (qs : List Participant)
    → IsValid l next_id
    → Alike l.entries qs
    → IsValid (record l { entries = qs }) next_id
Alike-IsValid l next_id qs v h = record {
  ids = Below-Alike next_id l.entries qs h v.ids;
  nicks = λ n. omega (arith, v.nicks n, sum-Alike (nick_hit n) l.entries qs (nick_hit-Same n) h);
  jids = λ j. omega (arith, v.jids j, sum-Alike (jid_hit j) l.entries qs (jid_hit-Same j) h);
  counted = omega (arith, v.counted, length-Alike l.entries qs h);
}

pub affected-Same :
    (p q : Participant) (reason : BufferPtr) (affected : List ℕ)
    → Same p q
    → Same p (participant_set_affected q reason affected).0
unfolding participant_set_affected
affected-Same p q reason affected s =
    if-cases (λ (r : Participant × List ℕ). Same p r.0) q.included s
      (record { id = s.id; jid = s.jid; nick = s.nick })

reaffiliated-Same :
    (a : ℕ) (reason : BufferPtr) (p : Participant) (affected : List ℕ)
    → Same p (reaffiliated a reason p affected).0
unfolding reaffiliated
reaffiliated-Same a reason p affected = elim (Bool-cases (a == p.affiliation)) [
  | inl as_before ↦ rw as_before (self p)
  | inr changed ↦
      rw changed (affected-Same p _ reason affected (record { id = refl; jid = refl; nick = refl }))
]

pub reaffiliate-Alike :
    (lists : Affiliations) (acl : AclConfig) (reason : BufferPtr) (ps : List Participant)
    (affected : List ℕ)
    → Ensures
        (λ (r : List Participant × List ℕ). Alike ps r.0)
        (reaffiliate lists acl reason ps affected)
unfolding reaffiliate
reaffiliate-Alike lists acl reason [] affected = tt
reaffiliate-Alike lists acl reason (p ∷ ps) affected =
    bind-Ensures _ (affiliationss_get_by_jid (affiliations_by_cast lists) acl p.jid) _ (λ a.
      cons (reaffiliated a reason p affected)
        (reaffiliate lists acl reason ps (reaffiliated a reason p affected).1)
        (reaffiliated-Same a reason p affected)
        (reaffiliate-Alike lists acl reason ps (reaffiliated a reason p affected).1))
  where
    cons :
        (r : Participant × List ℕ) (m : Outcome (List Participant × List ℕ))
        → Same p r.0
        → Ensures (λ (s : List Participant × List ℕ). Alike ps s.0) m
        → Ensures
            (λ (s : List Participant × List ℕ). Alike (p ∷ ps) s.0)
            (m >>= λ s. ok (r.0 ∷ s.0, s.1))
    cons r (ok s) e h = (e, h)
    cons r (fault f) e h = tt

pub mark_where-Alike :
    (test : Participant → Bool) (change : Participant → Participant) (reason : BufferPtr)
    → ((p : Participant) → Same p (change p))
    → (ps : List Participant) (affected : List ℕ)
    → Alike ps (mark_where test change reason ps affected).0
unfolding mark_where
mark_where-Alike test change reason same [] affected = tt
mark_where-Alike test change reason same (p ∷ ps) affected = elim (Bool-cases (test p)) [
  | inl meets ↦ rw meets (
    affected-Same p (change p) reason affected (same p),
    mark_where-Alike test change reason same ps _,
  )
  | inr other ↦ rw other (self p, mark_where-Alike test change reason same ps affected)
]
