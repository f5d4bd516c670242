-- ===== src/Net/Mask/Prefix.antt =====
-- Contains, and the leading digits of two addresses.
use openconnect_ubuntu_touch.Common.{
  ℕ, zero, suc, ◌+◌, ◌-◌, ◌*◌, ◌/◌, ◌^◌, ◌≤◌, ◌<◌, ◌≡◌, sym, ap, ◌∙◌, ◌↔◌, true, Bool-ext, arith,
  bit_and, ◌==◌, ==_iff,
}
use openconnect_ubuntu_touch.Net.Ip.{Ip4, IsIp4, value}
use openconnect_ubuntu_touch.Net.Mask.{cidr_byte, cidr_mask, IpNet, contains}
use openconnect_ubuntu_touch.Net.Mask.Bytes.{bit_and-cidr_byte, cidr_byte_full}
use native.Mathlib.Nat.{div-div-eq-div-mul, add-zero, add-suc, pow-suc, one-le-pow, mul-div_cancel}
use native.Mathlib.Decide.{dec_le}

-- Two leading parts and two trailing digits are compared at once.
digit_split :
    (j h g l m : ℕ)
    → j ≤ 8
    → l < 256
    → m < 256
    → ((h * 256 + l) / 2 ^ j ≡ (g * 256 + m) / 2 ^ j) ↔ ((h ≡ g) × (l / 2 ^ j ≡ m / 2 ^ j))
digit_split zero h g l m hj hl hm = (λ e. omega arith, λ e. omega arith)
digit_split (suc zero) h g l m hj hl hm = (λ e. omega arith, λ e. omega arith)
digit_split (suc (suc zero)) h g l m hj hl hm = (λ e. omega arith, λ e. omega arith)
digit_split (suc (suc (suc zero))) h g l m hj hl hm = (λ e. omega arith, λ e. omega arith)
digit_split (suc (suc (suc (suc zero)))) h g l m hj hl hm = (λ e. omega arith, λ e. omega arith)
digit_split (suc (suc (suc (suc (suc zero))))) h g l m hj hl hm =
    (λ e. omega arith, λ e. omega arith)
digit_split (suc (suc (suc (suc (suc (suc zero)))))) h g l m hj hl hm =
    (λ e. omega arith, λ e. omega arith)
digit_split (suc (suc (suc (suc (suc (suc (suc zero))))))) h g l m hj hl hm =
    (λ e. omega arith, λ e. omega arith)
digit_split (suc (suc (suc (suc (suc (suc (suc (suc zero)))))))) h g l m hj hl hm =
    (λ e. omega arith, λ e. omega arith)
digit_split (suc (suc (suc (suc (suc (suc (suc (suc (suc j))))))))) h g l m hj hl hm =
    absurd (omega arith)

pub two_pow_add : (j m : ℕ) → 2 ^ (j + m) ≡ 2 ^ m * 2 ^ j
two_pow_add j zero = rw add-zero (omega arith)
two_pow_add j (suc m) =
    rw (add-suc j m)
      (omega (arith, pow-suc 2 (j + m), ap (λ (t : ℕ). t * 2 ^ j) (pow-suc 2 m), two_pow_add j m))

-- A long shift goes by whole bytes first.
pub shift_whole : (a j m : ℕ) → a / 2 ^ (j + m) ≡ a / 2 ^ m / 2 ^ j
shift_whole a j m = rw (two_pow_add j m) (sym (div-div-eq-div-mul a (2 ^ m) (2 ^ j)))

scaled_injective : (p q r : ℕ) → 0 < p → q * p ≡ r * p → q ≡ r
scaled_injective p q r pos e = sym (mul-div_cancel q pos) ∙ ap (λ t. t / p) e ∙ mul-div_cancel r pos

-- Under one mask byte, two bytes agree when their leading digits do.
same_byte :
    (n a b : ℕ)
    → a < 256
    → b < 256
    → (bit_and a (cidr_byte n) ≡ bit_and b (cidr_byte n)) ↔ (a / 2 ^ (8 - n) ≡ b / 2 ^ (8 - n))
same_byte n a b ha hb = elim (dec_le n 8) [
  | yes small ↦
      rw (bit_and-cidr_byte n a small ha, bit_and-cidr_byte n b small hb)
        (scaled_injective (2 ^ (8 - n)) _ _ (one-le-pow (8 - n) 2 (omega arith)), λ e. rw e)
  | no large ↦
      let e : 8 - n ≡ 0 = omega arith in
      rw
        (
          e,
          cidr_byte_full n (omega arith),
          bit_and-cidr_byte 8 a (omega arith) ha,
          bit_and-cidr_byte 8 b (omega arith) hb,
        )
        (omega arith, omega arith)
]

-- The four comparisons that `Contains` makes, on leading digits.
abbrev SameDigits : ℕ → Ip4 → Ip4 → Type 0
SameDigits n a h =
    (a.b0 / 2 ^ (8 - n) ≡ h.b0 / 2 ^ (8 - n))
    × (a.b1 / 2 ^ (8 - (n - 8)) ≡ h.b1 / 2 ^ (8 - (n - 8)))
    × (a.b2 / 2 ^ (8 - (n - 16)) ≡ h.b2 / 2 ^ (8 - (n - 16)))
    × (a.b3 / 2 ^ (8 - (n - 24)) ≡ h.b3 / 2 ^ (8 - (n - 24)))

contains-SameDigits :
    (n : ℕ) (a h : Ip4)
    → IsIp4 a
    → IsIp4 h
    → (contains (record { ip = a; mask = cidr_mask n }) h ≡ true) ↔ SameDigits n a h
unfolding contains cidr_mask
contains-SameDigits n a h ia ih =
    let s0 = same_byte n a.b0 h.b0 ia.b0_lt ih.b0_lt in
    let s1 = same_byte (n - 8) a.b1 h.b1 ia.b1_lt ih.b1_lt in
    let s2 = same_byte (n - 16) a.b2 h.b2 ia.b2_lt ih.b2_lt in
    let s3 = same_byte (n - 24) a.b3 h.b3 ia.b3_lt ih.b3_lt in
    (
      λ e. (s0.0 (ground arith), s1.0 (ground arith), s2.0 (ground arith), s3.0 (ground arith)),
      λ e. ground (arith, s0.1 e.0, s1.1 e.1, s2.1 e.2, s3.1 e.3),
    )

-- The boundary between network and host in the last, third, second or first byte.
module _ (n : ℕ) (a h : Ip4) (ia : IsIp4 a) (ih : IsIp4 h) where
  digits_24 : 24 ≤ n → n ≤ 32 → SameDigits n a h ↔ (value a / 2 ^ (32 - n) ≡ value h / 2 ^ (32 - n))
  digits_24 lo hi =
      let e0 : 8 - n ≡ 0 = omega arith in
      let e1 : 8 - (n - 8) ≡ 0 = omega arith in
      let e2 : 8 - (n - 16) ≡ 0 = omega arith in
      let e3 : 8 - (n - 24) ≡ 32 - n = omega arith in
      let d =
        digit_split (32 - n) (a.b0 * 65536 + a.b1 * 256 + a.b2) (h.b0 * 65536 + h.b1 * 256 + h.b2)
          a.b3 h.b3 (omega arith) ia.b3_lt ih.b3_lt in
      let wa : value a ≡ (a.b0 * 65536 + a.b1 * 256 + a.b2) * 256 + a.b3 = omega arith in
      let wh : value h ≡ (h.b0 * 65536 + h.b1 * 256 + h.b2) * 256 + h.b3 = omega arith in
      rw (e0, e1, e2, e3, wa, wh)
        (
          λ e. d.1 (omega arith, e.3),
          λ e. let f = d.0 e in (omega arith, omega arith, omega arith, f.1),
        )

  digits_16 : 16 ≤ n → n ≤ 24 → SameDigits n a h ↔ (value a / 2 ^ (32 - n) ≡ value h / 2 ^ (32 - n))
  digits_16 lo hi =
      let e0 : 8 - n ≡ 0 = omega arith in
      let e1 : 8 - (n - 8) ≡ 0 = omega arith in
      let e2 : 8 - (n - 16) ≡ 24 - n = omega arith in
      let e3 : 8 - (n - 24) ≡ 8 = omega arith in
      let e4 : 32 - n ≡ 24 - n + 8 = omega arith in
      let d =
        digit_split (24 - n) (a.b0 * 256 + a.b1) (h.b0 * 256 + h.b1) a.b2 h.b2 (omega arith)
          ia.b2_lt ih.b2_lt in
      let wa : value a / 256 ≡ (a.b0 * 256 + a.b1) * 256 + a.b2 = omega arith in
      let wh : value h / 256 ≡ (h.b0 * 256 + h.b1) * 256 + h.b2 = omega arith in
      rw
        (
          e0,
          e1,
          e2,
          e3,
          e4,
          shift_whole (value a) (24 - n) 8,
          shift_whole (value h) (24 - n) 8,
          wa,
          wh,
        )
        (
          λ e. d.1 (omega arith, e.2),
          λ e. let f = d.0 e in (omega arith, omega arith, f.1, omega arith),
        )

  digits_8 : 8 ≤ n → n ≤ 16 → SameDigits n a h ↔ (value a / 2 ^ (32 - n) ≡ value h / 2 ^ (32 - n))
  digits_8 lo hi =
      let e0 : 8 - n ≡ 0 = omega arith in
      let e1 : 8 - (n - 8) ≡ 16 - n = omega arith in
      let e2 : 8 - (n - 16) ≡ 8 = omega arith in
      let e3 : 8 - (n - 24) ≡ 8 = omega arith in
      let e4 : 32 - n ≡ 16 - n + 16 = omega arith in
      let d = digit_split (16 - n) a.b0 h.b0 a.b1 h.b1 (omega arith) ia.b1_lt ih.b1_lt in
      let wa : value a / 65536 ≡ a.b0 * 256 + a.b1 = omega arith in
      let wh : value h / 65536 ≡ h.b0 * 256 + h.b1 = omega arith in
      rw
        (
          e0,
          e1,
          e2,
          e3,
          e4,
          shift_whole (value a) (16 - n) 16,
          shift_whole (value h) (16 - n) 16,
          wa,
          wh,
        )
        (
          λ e. d.1 (omega arith, e.1),
          λ e. let f = d.0 e in (omega arith, f.1, omega arith, omega arith),
        )

  digits_0 : n ≤ 8 → SameDigits n a h ↔ (value a / 2 ^ (32 - n) ≡ value h / 2 ^ (32 - n))
  digits_0 hi =
      let e1 : 8 - (n - 8) ≡ 8 = omega arith in
      let e2 : 8 - (n - 16) ≡ 8 = omega arith in
      let e3 : 8 - (n - 24) ≡ 8 = omega arith in
      let e4 : 32 - n ≡ 8 - n + 24 = omega arith in
      let wa : value a / 16777216 ≡ a.b0 = omega arith in
      let wh : value h / 16777216 ≡ h.b0 = omega arith in
      rw
        (e1, e2, e3, e4, shift_whole (value a) (8 - n) 24, shift_whole (value h) (8 - n) 24, wa, wh)
        (λ e. e.0, λ e. (e, omega arith, omega arith, omega arith))

  SameDigits-iff : n ≤ 32 → SameDigits n a h ↔ (value a / 2 ^ (32 - n) ≡ value h / 2 ^ (32 - n))
  SameDigits-iff hi = elim (dec_le n 8) [
    | yes p ↦ digits_0 p
    | no p ↦ elim (dec_le n 16) [
      | yes q ↦ digits_8 (omega arith) q
      | no q ↦ elim (dec_le n 24) [
        | yes r ↦ digits_16 (omega arith) r
        | no r ↦ digits_24 (omega arith) hi
      ]
    ]
  ]

-- With the mask of length `n`, a block holds the addresses that share its 32 - (32 - n) leading bits.
pub contains_iff :
    (n : ℕ) (a h : Ip4)
    → n ≤ 32
    → IsIp4 a
    → IsIp4 h
    → (contains (record { ip = a; mask = cidr_mask n }) h ≡ true)
      ↔ (value a / 2 ^ (32 - n) ≡ value h / 2 ^ (32 - n))
contains_iff n a h hn ia ih =
    let one = contains-SameDigits n a h ia ih in
    let two = SameDigits-iff n a h ia ih hn in (λ e. two.0 (one.0 e), λ e. one.1 (two.1 e))

-- The same as an equation of tests.
pub contains_digits :
    (n : ℕ) (a h : Ip4)
    → n ≤ 32
    → IsIp4 a
    → IsIp4 h
    → contains (record { ip = a; mask = cidr_mask n }) h
      ≡ (value a / 2 ^ (32 - n) == value h / 2 ^ (32 - n))
contains_digits n a h hn ia ih =
    Bool-ext _ _ (contains_iff n a h hn ia ih)
      (==_iff (value a / 2 ^ (32 - n)) (value h / 2 ^ (32 - n)))

-- The same of a block with `r` host digits.
pub contains_block :
    (n r : ℕ) (b : IpNet) (h : Ip4)
    → n + r ≡ 32
    → b.mask ≡ cidr_mask n
    → IsIp4 b.ip
    → IsIp4 h
    → contains b h ≡ (value b.ip / 2 ^ r == value h / 2 ^ r)
contains_block n r b h len e ib ih =
    let hosts : 32 - n ≡ r = omega arith in
    let same : ◌≡◌ {A = IpNet} b (record { ip = b.ip; mask = cidr_mask n }) =
      λ i. record { ip = b.ip; mask = e i } in
    ap (λ c. contains c h) same ∙ rw hosts at (contains_digits n b.ip h (omega arith) ib ih)
