-- ===== src/Strconv/RoundTrip.antt =====
-- Atoi on the decimal print of a non-negative int.
use openconnect_ubuntu_touch.Common.{
  ℕ, zero, suc, ◌+◌, ◌-◌, ◌*◌, ◌/◌, ◌%◌, ◌^◌, ◌≤◌, ◌<◌, ◌≡◌, ap, ◌∙◌, true, false, [], ◌∷◌, arith,
  ltb, ◌==◌, lt→ltb, Bool-cases, inl, inr,
}
use native.Mathlib.Nat.{pow-suc}
use openconnect_ubuntu_touch.Common.Text.{Text}
use openconnect_ubuntu_touch.Common.Int.{pos}
use openconnect_ubuntu_touch.Strconv.{parse_uint, number, atoi, digits_of, itoa}

-- A text that starts with a digit.
abbrev StartsWithDigit : Text → Type 0
StartsWithDigit [] = ⊥
StartsWithDigit (c ∷ s) = (b'0' ≤ c) × (c ≤ b'9')

digits_of-StartsWithDigit :
    (f n : ℕ) (out : Text) → n < 10 ^ suc f → StartsWithDigit (digits_of (suc f) n out)
unfolding digits_of
digits_of-StartsWithDigit zero n out h = rw (lt→ltb n 10 (omega arith)) (omega arith)
digits_of-StartsWithDigit (suc f) n out h = elim (Bool-cases (ltb n 10)) [
  | inl last ↦ rw last (omega arith, ground arith)
  | inr more ↦ rw more (digits_of-StartsWithDigit f (n / 10) _ (omega (arith, pow-suc 10 (suc f))))
]

-- Reading one more digit.
parse_uint_step :
    (m d : ℕ) (out : Text)
    → d < 10
    → m * 10 + d < 2 ^ 64
    → parse_uint m ((b'0' + d) ∷ out) ≡ parse_uint (m * 10 + d) out
unfolding parse_uint
parse_uint_step m d out h k = let e : b'0' + d - b'0' ≡ d = omega arith in rw e (ground arith)

-- Reading the digits of `n` in front of a rest goes on from `n`.
parse_uint-digits_of :
    (f n : ℕ) (out : Text)
    → n < 10 ^ f
    → n < 2 ^ 64
    → parse_uint 0 (digits_of f n out) ≡ parse_uint n out
unfolding digits_of
parse_uint-digits_of zero n out h k = let e : n ≡ 0 = omega arith in rw e
parse_uint-digits_of (suc f) n out h k = elim (Bool-cases (ltb n 10)) [
  | inl last ↦ rw last (
      parse_uint_step 0 n out (ground arith) (omega arith)
      ∙ ap (λ m. parse_uint m out) (omega arith))
  | inr more ↦
      let whole : n / 10 * 10 + n % 10 ≡ n = omega arith in
      rw more (
        parse_uint-digits_of f (n / 10) _ (omega (arith, pow-suc 10 f)) (omega arith)
        ∙ parse_uint_step (n / 10) (n % 10) out (omega arith) (omega arith)
        ∙ ap (λ m. parse_uint m out) whole)
]

read_digits :
    (s : Text) (n : ℕ)
    → StartsWithDigit s
    → parse_uint 0 s ≡ number n
    → n < 2 ^ 63
    → atoi s ≡ record { val = pos n; is_ok = true }
unfolding atoi
read_digits [] n h e lt = absurd h
read_digits (c ∷ s) n h e lt =
    let minus : (c == b'-') ≡ false = ground arith in
    let plus : (c == b'+') ≡ false = ground arith in rw (minus, plus, e) (ground arith)

-- Every non-negative int is read back from its decimal print.
pub atoi-itoa : (n : ℕ) → n < 2 ^ 63 → atoi (itoa n) ≡ record { val = pos n; is_ok = true }
unfolding itoa parse_uint
atoi-itoa n h =
    read_digits (digits_of 20 n []) n (digits_of-StartsWithDigit 19 n [] (omega arith))
      (parse_uint-digits_of 20 n [] (omega arith) (omega arith)) h
