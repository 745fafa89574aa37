-- ===== src/Builder/Early.antt =====
-- The pushes of builder.c that print by `snprintf` and `strftime`.
use mukite.Common.{
  ℕ, zero, suc, ◌+◌, ◌-◌, ◌/◌, ◌%◌, ◌≤◌, ◌<◌, ◌≡◌, refl, sym, ap, ◌∙◌, ◌⊎◌, inl, inr, true, [], ◌∷◌,
  ◌++◌, append_assoc, Bytes, length, length-append, length-take, take, ltb, ltb→le, ltb→lt,
  Bool-cases, ok, ◌>>=◌, arith,
}
use mukite.Builder.{
  BuilderBuffer, Push, skip, go_on, ◌>>◌, digits_before, decimal, printed, push_fmt,
}
use mukite.Builder.Times.{push_time}
use mukite.Builder.Writes.{appended, Stopped, Adds, Writes, Refuses, Stopped-go_on, then-Adds}

-- What `snprintf` and `strftime` do: a text that would leave no room after it may be refused, or
-- be cut short, but it leaves no room then.
pub record Early (m : Push) (t : Bytes) (b : BuilderBuffer) : Type 0 where
  pub whole : length b.text + length t < b.size → m b ≡ ok (appended b t, true)
  pub stops : b.size < length b.text + length t → Stopped b.size (m b)
  pub full :
      length b.text + length t ≡ b.size
      → Stopped b.size (m b)
        ⊎ ((c : BuilderBuffer) × (m b ≡ ok (c, true))
            × (length c.text ≡ c.size)
            × (c.size ≡ b.size))

abbrev pub IsEarly : Push → Bytes → Type 0
IsEarly m t = (b : BuilderBuffer) → length b.text ≤ b.size → Early m t b

module _ (m k : Push) (t : Bytes) {g : Bytes → Bytes} (early : IsEarly m t) (w : Writes k g)
    (refuses : Refuses k) where
  -- A code that refuses a full buffer writes at least a byte.
  not-nil : (b : BuilderBuffer) → length b.text ≡ b.size → 0 < length w.text
  not-nil b full = ground (arith, refuses b full, (w.adds b (omega arith)).whole)

  full-stops :
      (b : BuilderBuffer)
      → Stopped b.size (m b)
        ⊎ ((c : BuilderBuffer) × (m b ≡ ok (c, true))
            × (length c.text ≡ c.size)
            × (c.size ≡ b.size))
      → Stopped b.size ((m >> k) b)
  unfolding ◌>>◌
  full-stops b (inl h) = Stopped-go_on b.size (m b) k h
  full-stops b (inr (c, e, full, same)) = rw (e, ◌>>=◌, go_on, refuses c full) (omega arith)

  early-whole :
      (b : BuilderBuffer)
      → length b.text ≤ b.size
      → length b.text + length (t ++ w.text) ≤ b.size
      → length b.text + length t < b.size
  early-whole b h e = elim (Bool-cases (ltb (length b.text + length t) b.size)) [
    | inl less ↦ ltb→lt (length b.text + length t) b.size less
    | inr other ↦
        let more = ltb→le (length b.text + length t) b.size other in
        let sum = length-append t w.text in
        omega (arith, not-nil (appended b t) (omega (arith, length-append b.text t)))
  ]

  past-stops :
      (b : BuilderBuffer)
      → length b.text ≤ b.size
      → b.size ≤ length b.text + length t
      → Stopped b.size ((m >> k) b)
  unfolding ◌>>◌
  past-stops b h e = elim (Bool-cases (ltb b.size (length b.text + length t))) [
    | inl past ↦
        Stopped-go_on b.size (m b) k
          ((early b h).stops (ltb→lt b.size (length b.text + length t) past))
    | inr same ↦
        full-stops b
          ((early b h).full (omega (arith, ltb→le b.size (length b.text + length t) same)))
  ]

  early-Adds : (b : BuilderBuffer) → length b.text ≤ b.size → Adds (m >> k) (t ++ w.text) b
  unfolding ◌>>◌
  early-Adds b h = elim (Bool-cases (ltb (length b.text + length t) b.size)) [
    | inl less ↦
        then-Adds m k t w.text b h
          (record {
            whole = λ e. (early b h).whole (ltb→lt (length b.text + length t) b.size less);
            stops = λ e. (early b h).stops e;
          })
          (λ fits. w.adds (appended b t) fits)
    | inr other ↦ record {
      whole = λ e.
          absurd (omega (arith, early-whole b h e, ltb→le (length b.text + length t) b.size other));
      stops = λ e. past-stops b h (ltb→le (length b.text + length t) b.size other);
    }
  ]

  pub early_then : Writes (m >> k) (λ r. t ++ g r)
  early_then = record {
    text = t ++ w.text;
    before = λ r. ap (λ x. t ++ x) (w.before r) ∙ sym (append_assoc t w.text r);
    adds = early-Adds;
  }

digits_before-length :
    (k n : ℕ) (rest : Bytes) → length rest < length (digits_before (suc k) n rest)
unfolding digits_before
digits_before-length zero n rest = elim (Bool-cases (ltb n 10)) [
  | inl e ↦ rw e (omega arith)
  | inr e ↦ rw e (omega arith)
]
digits_before-length (suc k) n rest = elim (Bool-cases (ltb n 10)) [
  | inl e ↦ rw e (omega arith)
  | inr e ↦ rw e (omega (arith, digits_before-length k (n / 10) ((b'0' + n % 10) ∷ rest)))
]

decimal-length : (w : ℕ) → 0 < length (decimal w)
unfolding decimal
decimal-length w = elim (Bool-cases (ltb w 2147483648)) [
  | inl e ↦ rw e (digits_before-length 9 w [])
  | inr e ↦ rw e (omega arith)
]

length-cut : (n : ℕ) (t : Bytes) → length t ≡ n → 0 < n → length (take (n - 1) t ++ (0 ∷ [])) ≡ n
length-cut n t e h = omega (arith, length-append (take (n - 1) t) (0 ∷ []), length-take (n - 1) t)

module _ (t : Bytes) (b : BuilderBuffer) (h : length b.text ≤ b.size) where
  -- What `snprintf` leaves where the text fits with a byte to spare.
  printed-whole : length b.text + length t < b.size → printed t (b.size - length b.text) ≡ t
  unfolding printed
  printed-whole e = ground arith

  length-printed :
      0 < length t
      → length b.text + length t ≡ b.size
      → length b.text + length (printed t (b.size - length b.text)) ≡ b.size
  unfolding printed
  length-printed pos e = ground (arith, length-cut (b.size - length b.text) t)

pub fmt-Early : (v : ℕ) → IsEarly (push_fmt v) (decimal v)
unfolding push_fmt
fmt-Early v b h = record {
  whole = λ e. ground (arith, printed-whole (decimal v) b h e);
  stops = λ e. ground arith;
  full = λ e. inr (
    record b { text = b.text ++ printed (decimal v) (b.size - length b.text) },
    ground arith,
    ground (
      arith,
      decimal-length v,
      length-printed (decimal v) b h,
      length-append b.text (printed (decimal v) (b.size - length b.text)),
    ),
    refl,
  );
}

pub time-Early : (t : Bytes) → IsEarly (push_time t) t
unfolding push_time
time-Early t b h = record {
  whole = λ e. ground arith;
  stops = λ e. ground arith;
  full = λ e. inl (ground arith);
}

-- Nothing follows.
pub skip-Early : (m : Push) (t : Bytes) → IsEarly m t → IsEarly (m >> skip) t
unfolding ◌>>◌
skip-Early m t early b h = record {
  whole = λ e. rw ((early b h).whole e, ◌>>=◌, go_on) refl;
  stops = λ e. Stopped-go_on b.size (m b) skip ((early b h).stops e);
  full = λ e. elim ((early b h).full e) [
    | inl stop ↦ inl (Stopped-go_on b.size (m b) skip stop)
    | inr (c, step, full, same) ↦ inr (c, rw (step, ◌>>=◌, go_on) refl, full, same)
  ];
}
