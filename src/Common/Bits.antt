-- ===== src/Common/Bits.antt =====
-- `|` on numbers: joining with digits below a power of two, and with one that is set.
use Prim.Native.Nat.{
  ℕ, zero, suc, ◌+◌, ◌*◌, ◌/◌, ◌%◌, ◌^◌, ◌≤◌, ◌<◌, max, bit_or, digits, bit_or-bitwise,
}
use mathlib.Core.Path.{◌≡◌, refl, sym, ap, ◌∙◌}
use native.Mathlib.Omega.{arith}
use native.Mathlib.Decide.{dec_lt}
use native.Mathlib.Nat.{pow-suc, div-div-eq-div-mul}

abbrev or_digits : ℕ → ℕ → ℕ → ℕ
or_digits n a b = digits (λ y. y) max n a b

-- Any fuel from `a` on gives the same digits.
or_digits_enough : (a b j k : ℕ) → a ≤ j → a ≤ k → or_digits j a b ≡ or_digits k a b
or_digits_enough (suc a) b (suc j) (suc k) hj hk =
    let upper = or_digits_enough (suc a / 2) (b / 2) j k (omega arith) (omega arith) in
    omega (arith, upper)
or_digits_enough (suc a) b zero k hj hk = absurd (omega (arith, hj))
or_digits_enough (suc a) b (suc j) zero hj hk = absurd (omega (arith, hk))
or_digits_enough zero b zero zero hj hk = refl
or_digits_enough zero b (suc j) zero hj hk = refl
or_digits_enough zero b zero (suc k) hj hk = refl
or_digits_enough zero b (suc j) (suc k) hj hk = refl

zero-bit_or : (b : ℕ) → bit_or 0 b ≡ b
zero-bit_or b = bit_or-bitwise 0 b

-- The lowest digit of a `|`, and the digits above it.
bit_or_lowest : (a b : ℕ) → bit_or a b ≡ bit_or (a / 2) (b / 2) * 2 + max (a % 2) (b % 2)
bit_or_lowest zero b = omega (arith, zero-bit_or b, zero-bit_or (b / 2))
bit_or_lowest (suc a) b =
    let half = suc a / 2 in
    let enough = or_digits_enough half (b / 2) a half (omega arith) (omega arith) in
    omega (arith, enough, bit_or-bitwise half (b / 2), bit_or-bitwise (suc a) b)

bit_or-zero_upto : (n a : ℕ) → a ≤ n → bit_or a 0 ≡ a
bit_or-zero_upto n zero h = zero-bit_or 0
bit_or-zero_upto zero (suc a) h = absurd (omega arith)
bit_or-zero_upto (suc n) (suc a) h =
    omega (arith, bit_or_lowest (suc a) 0, bit_or-zero_upto n (suc a / 2) (omega arith))

double_scaled : (q k : ℕ) → q * 2 ^ suc k ≡ 2 * (q * 2 ^ k)
double_scaled q k = omega (arith, ap (λ (t : ℕ). q * t) (pow-suc 2 k))

-- A multiple of 2 ^ k joined with a number below 2 ^ k.
pub bit_or-eq-add : (k q r : ℕ) → r < 2 ^ k → bit_or (q * 2 ^ k) r ≡ q * 2 ^ k + r
bit_or-eq-add zero q r h = ground (arith, bit_or-zero_upto q q (omega arith))
bit_or-eq-add (suc k) q r h = ground (
  arith,
  bit_or_lowest (q * 2 ^ suc k) r,
  double_scaled q k,
  pow-suc 2 k,
  bit_or-eq-add k q (r / 2) (omega (arith, pow-suc 2 k)),
)

-- The quotient of a number between two neighbouring multiples.
pub div-eq_of_between : (p x q : ℕ) → q * p ≤ x → x < q * p + p → x / p ≡ q
div-eq_of_between p x q lo hi = grind arith

-- A smaller multiple lies a whole step below.
pub next_multiple : (p q r : ℕ) → q * p < r * p → q * p + p ≤ r * p
next_multiple p q r h = elim (dec_lt q r) [
  | yes lt ↦ let wide : (q + 1) * p ≤ r * p = grind arith in omega arith
  | no ge ↦ let narrow : r * p ≤ q * p = grind arith in absurd (omega arith)
]

zero_shift : (r : ℕ) → 2 ^ suc r / 2 ≡ 2 ^ r
zero_shift r = omega (arith, pow-suc 2 r)

-- Joining with a digit that is set already changes nothing.
pub bit_or_set : (r v : ℕ) → v / 2 ^ r % 2 ≡ 1 → bit_or v (2 ^ r) ≡ v
bit_or_set zero v h =
    omega (arith, bit_or_lowest v 1, bit_or-zero_upto (v / 2) (v / 2) (omega arith))
bit_or_set (suc r) v h =
    let double = two_pow_factor r in
    let deeper : v / 2 / 2 ^ r % 2 ≡ 1 =
      ap (λ (t : ℕ). t % 2) (div-div-eq-div-mul v 2 (2 ^ r) ∙ ap (λ (t : ℕ). v / t) (sym double))
      ∙ h in
    let halved = ap (λ (t : ℕ). bit_or (v / 2) t) (zero_shift r) in
    omega (arith, bit_or_lowest v (2 ^ suc r), double, halved, bit_or_set r (v / 2) deeper)
  where
    two_pow_factor : (k : ℕ) → 2 ^ suc k ≡ 2 * 2 ^ k
    two_pow_factor k = omega (arith, pow-suc 2 k)
