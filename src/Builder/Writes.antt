-- ===== src/Builder/Writes.antt =====
-- The pushes of builder.c, each by the text that it adds.
use mukite.Common.{
  ℕ, ◌+◌, ◌≤◌, ◌<◌, ◌≡◌, refl, sym, ap, ◌∙◌, inl, inr, Bool, true, false, [], ◌∷◌, ◌++◌,
  append_assoc, append-nil, Bytes, length, length-append, ltb, ltb→le, Bool-cases, Outcome, ok,
  fault, ◌>>=◌, arith,
}
use mukite.Builder.{BuilderBuffer, Push, skip, go_on, ◌>>◌, push}

-- The buffer after a text, and whether the text fits.
abbrev pub appended : BuilderBuffer → Bytes → BuilderBuffer
appended b t = record b { text = b.text ++ t }

-- The code stopped, and left no more in the buffer than it has room for.
abbrev pub Stopped : ℕ → Outcome (BuilderBuffer × Bool) → Type 0
Stopped size (ok (b, true)) = ⊥
Stopped size (ok (b, false)) = length b.text ≤ size
Stopped size (fault e) = ⊥

-- What a push of one text does: it is added if it fits, and otherwise the push stops.
pub record Adds (m : Push) (t : Bytes) (b : BuilderBuffer) : Type 0 where
  pub whole : length b.text + length t ≤ b.size → m b ≡ ok (appended b t, true)
  pub stops : b.size < length b.text + length t → Stopped b.size (m b)

-- The text is given by what stands before any rest.
pub record Writes (m : Push) (f : Bytes → Bytes) : Type 0 where
  pub text : Bytes
  pub before : (r : Bytes) → f r ≡ text ++ r
  pub adds : (b : BuilderBuffer) → length b.text ≤ b.size → Adds m text b

-- A code that stops goes on to nothing.
pub Stopped-go_on :
    (n : ℕ) (o : Outcome (BuilderBuffer × Bool)) (k : Push)
    → Stopped n o
    → Stopped n (o >>= go_on k)
Stopped-go_on n (ok (b, true)) k h = elim h [ ]
Stopped-go_on n (ok (b, false)) k h = h
Stopped-go_on n (fault e) k h = elim h [ ]

length-appended :
    (b : BuilderBuffer) (t : Bytes) → length (appended b t).text ≡ length b.text + length t
length-appended b t = length-append b.text t

pub skip-Writes : Writes skip (λ r. r)
skip-Writes = record {
  text = [];
  before = λ r. refl;
  adds =
      λ b h. record { whole = λ k. rw (append-nil b.text) refl; stops = λ k. absurd (omega arith) };
}

push-Adds : (bytes : Bytes) (b : BuilderBuffer) → length b.text ≤ b.size → Adds (push bytes) bytes b
unfolding push
push-Adds bytes b h = elim (Bool-cases (ltb b.size (length b.text + length bytes))) [
  | inl full ↦ record { whole = λ k. ground arith; stops = λ k. rw full h }
  | inr fits ↦ record { whole = λ k. rw fits refl; stops = λ k. ground arith }
]

pub push-Writes : (bytes : Bytes) → Writes (push bytes) (λ r. bytes ++ r)
push-Writes bytes = record { text = bytes; before = λ r. refl; adds = λ b h. push-Adds bytes b h }

then-whole :
    (m k : Push) (s t : Bytes) (b : BuilderBuffer)
    → m b ≡ ok (appended b s, true)
    → k (appended b s) ≡ ok (appended (appended b s) t, true)
    → (m >> k) b ≡ ok (appended b (s ++ t), true)
unfolding ◌>>◌
then-whole m k s t b first second = rw (first, ◌>>=◌, go_on, second, append_assoc b.text s t) refl

pub then-Adds :
    (m k : Push) (s t : Bytes) (b : BuilderBuffer)
    → length b.text ≤ b.size
    → Adds m s b
    → (length (appended b s).text ≤ b.size → Adds k t (appended b s))
    → Adds (m >> k) (s ++ t) b
unfolding ◌>>◌
then-Adds m k s t b h first second = elim (Bool-cases (ltb b.size (length b.text + length s))) [
  | inl full ↦ record {
    whole = λ e. absurd (ground (arith, length-append s t));
    stops = λ e. Stopped-go_on b.size (m b) k (first.stops (ground arith));
  }
  | inr fits ↦ record {
    whole = λ e. then-whole m k s t b (first.whole (ground arith)) (
        (second
            (omega (arith, length-append b.text s, ltb→le b.size (length b.text + length s)))).whole
          (omega (arith, length-append b.text s, length-append s t)));
    stops = λ e.
        rw (first.whole (ground arith), ◌>>=◌, go_on)
          ((second (
              omega
                (arith, length-append b.text s, ltb→le b.size (length b.text + length s)))).stops
            (omega (arith, length-append b.text s, length-append s t)));
  }
]

-- One code after another.
infixr 5 ◌▷◌
pub ◌▷◌ :
    {m k : Push} {f g : Bytes → Bytes} → Writes m f → Writes k g → Writes (m >> k) (λ r. f (g r))
◌▷◌ {m} {k} {f} {g} v w = record {
  text = v.text ++ w.text;
  before = λ r.
      v.before (g r) ∙ (ap (λ x. v.text ++ x) (w.before r) ∙ sym (append_assoc v.text w.text r));
  adds =
      λ b h. then-Adds m k v.text w.text b h (v.adds b h) (λ fits. w.adds (appended b v.text) fits);
}

-- The same text, said otherwise.
pub as_text : {m : Push} {f g : Bytes → Bytes} → Writes m f → ((r : Bytes) → g r ≡ f r) → Writes m g
as_text w same = record { text = w.text; before = λ r. same r ∙ w.before r; adds = w.adds }

-- A code that writes something, since it stops when the buffer is full.
abbrev pub Refuses : Push → Type 0
Refuses k = (b : BuilderBuffer) → length b.text ≡ b.size → k b ≡ ok (b, false)

pub push-Refuses : (c : ℕ) (bytes : Bytes) → Refuses (push (c ∷ bytes))
unfolding push
push-Refuses c bytes b full = ground arith

pub then-Refuses : (m k : Push) → Refuses m → Refuses (m >> k)
unfolding ◌>>◌
then-Refuses m k h b full = rw (h b full, ◌>>=◌, go_on) refl
