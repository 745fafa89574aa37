-- ===== src/Builder/Decimal.antt =====
-- Numbers as builder.c prints them and `btoi` of xmcomp/src/buffer.c reads them.
use mukite.Common.{
  ℕ, zero, suc, ◌+◌, ◌-◌, ◌*◌, ◌/◌, ◌%◌, ◌≤◌, ◌<◌, ◌≡◌, ap, lt→ltb, refl, ◌∙◌, true, false, some,
  [], ◌∷◌, Bytes, ltb, ltb→lt, ltb→le, Bool-cases, inl, inr, length, arith,
}
use mukite.Buffer.{word, digits, to_int, signed, atoi, btoi}
use mukite.Builder.{digits_before, decimal}

abbrev pow10 : ℕ → ℕ
pow10 zero = 1
pow10 (suc k) = 10 * pow10 k

digits-digit : (d a : ℕ) (b : Bytes) → d < 10 → digits ((b'0' + d) ∷ b) a ≡ digits b (a * 10 + d)
unfolding digits
digits-digit d a b h = ground arith

last_digit :
    (k n : ℕ) (rest : Bytes) → ltb n 10 ≡ true → digits_before (suc k) n rest ≡ (b'0' + n) ∷ rest
unfolding digits_before
last_digit k n rest e = rw e refl

more_digits :
    (k n : ℕ) (rest : Bytes)
    → ltb n 10 ≡ false
    → digits_before (suc k) n rest ≡ digits_before k (n / 10) ((b'0' + n % 10) ∷ rest)
unfolding digits_before
more_digits k n rest e = rw e refl

digits-digits_before :
    (k n : ℕ) (rest : Bytes)
    → n < pow10 (suc k)
    → digits (digits_before (suc k) n rest) 0 ≡ digits rest n
digits-digits_before zero n rest h =
    rw (last_digit zero n rest (lt→ltb n 10 (omega arith)))
      (digits-digit n 0 rest (omega arith) ∙ ap (digits rest) (omega arith))
digits-digits_before (suc k) n rest h = elim (Bool-cases (ltb n 10)) [
  | inl one ↦
      rw (last_digit (suc k) n rest one)
        (digits-digit n 0 rest (ltb→lt n 10 one) ∙ ap (digits rest) (omega arith))
  | inr more ↦ rw (more_digits (suc k) n rest more) (
      digits-digits_before k (n / 10) ((b'0' + n % 10) ∷ rest) (omega arith)
      ∙ (digits-digit (n % 10) (n / 10) rest (omega arith) ∙ ap (digits rest) (omega arith)))
]

-- What is printed starts with a digit.
abbrev StartsWithDigit : Bytes → Type 0
StartsWithDigit s = (d : ℕ) × (t : Bytes) × (d < 10) × (s ≡ (b'0' + d) ∷ t)

digits_before-StartsWithDigit :
    (k n : ℕ) (rest : Bytes) → StartsWithDigit rest → StartsWithDigit (digits_before k n rest)
unfolding digits_before
digits_before-StartsWithDigit zero n rest h = h
digits_before-StartsWithDigit (suc k) n rest h = elim (Bool-cases (ltb n 10)) [
  | inl one ↦ rw one (n, rest, ltb→lt n 10 one, refl)
  | inr more ↦ rw more (
      digits_before-StartsWithDigit k (n / 10) ((b'0' + n % 10) ∷ rest)
        (n % 10, rest, omega arith, refl))
]

-- Ten digits in front of nothing.
ten_digits : (n : ℕ) → StartsWithDigit (digits_before 10 n [])
ten_digits n = elim (Bool-cases (ltb n 10)) [
  | inl one ↦ rw (last_digit 9 n [] one) (n, [], ltb→lt n 10 one, refl)
  | inr more ↦ rw (more_digits 9 n [] more) (
      digits_before-StartsWithDigit 9 (n / 10) ((b'0' + n % 10) ∷ [])
        (n % 10, [], omega arith, refl))
]

length-digits_before : (k n : ℕ) (rest : Bytes) → length (digits_before k n rest) ≤ k + length rest
unfolding digits_before
length-digits_before zero n rest = omega arith
length-digits_before (suc k) n rest = elim (Bool-cases (ltb n 10)) [
  | inl one ↦ rw one (omega arith)
  | inr more ↦ rw more (omega (arith, length-digits_before k (n / 10) ((b'0' + n % 10) ∷ rest)))
]

-- A text that starts with a digit is read as its digits.
atoi-digits : (s : Bytes) → StartsWithDigit s → atoi s ≡ to_int false (digits s 0)
unfolding atoi signed
atoi-digits s (d, t, h, e) = rw e (ground arith)

atoi-minus : (s : Bytes) → atoi (b'-' ∷ s) ≡ to_int true (digits s 0)
unfolding atoi signed
atoi-minus s = refl

atoi-decimal : (w : ℕ) → w < word → atoi (decimal w) ≡ w
unfolding decimal to_int digits
atoi-decimal w h = elim (Bool-cases (ltb w 2147483648)) [
  | inl small ↦ rw small (
      atoi-digits (digits_before 10 w []) (ten_digits w)
      ∙ rw (digits-digits_before 9 w [] (omega arith), digits)
          (omega (arith, ltb→lt w 2147483648 small)))
  | inr negative ↦ rw negative (
      atoi-minus (digits_before 10 (word - w) [])
      ∙ rw
          (
            digits-digits_before 9 (word - w) [] (omega (arith, ltb→le w 2147483648 negative)),
            digits,
          )
          (omega (arith, ltb→le w 2147483648 negative)))
]

length-decimal : (w : ℕ) → length (decimal w) ≤ 11
unfolding decimal
length-decimal w = elim (Bool-cases (ltb w 2147483648)) [
  | inl small ↦ rw small (omega (arith, length-digits_before 10 w []))
  | inr negative ↦ rw negative (omega (arith, length-digits_before 10 (word - w) []))
]

-- `btoi` reads back each `int` of 32 bits, negative or not, that BUF_PUSH_FMT prints.
pub btoi-decimal : (w : ℕ) → w < word → btoi (some (decimal w)) ≡ w
unfolding btoi
btoi-decimal w h = ground (arith, length-decimal w, atoi-decimal w h)
